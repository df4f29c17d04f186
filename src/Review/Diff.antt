-- ===== src/Review/Diff.antt =====
-- ParseDiff of pr-review/review/parser.go. Go's `int` is its 64 bits, read as a number: the code only adds and compares.
pub mod Header
pub mod Numbers
use shipmates_oss.Prelude.{
  ℕ, ◌+◌, ◌-◌, ◌*◌, ◌%◌, Bool, true, false, not, ◌&&◌, ◌||◌, Option, none, some, List, [], ◌∷◌,
  ◌++◌, take, drop, length, leb, ◌==◌, if◌then◌else◌,
}
use shipmates_oss.Prelude.Bytes.{Bytes, codes, has_prefix, index, split_on, trim_space}

pub data LineType : Type 0 where
  add : LineType
  remove : LineType
  context : LineType

pub record DiffLine : Type 0 where
  pub line_type : LineType
  pub content : Bytes
  pub old_line : ℕ
  pub new_line : ℕ
  pub position : ℕ

pub record DiffHunk : Type 0 where
  pub start_line : ℕ
  pub line_count : ℕ
  pub lines : List DiffLine

pub record DiffFile : Type 0 where
  pub path : Bytes
  pub hunks : List DiffHunk
  pub new_file : Bool
  pub deleted : Bool

-- The lines of the hunks of a file.
abbrev pub hunk_lines : List DiffHunk → List DiffLine
hunk_lines [] = []
hunk_lines (h ∷ hs) = h.lines ++ hunk_lines hs

abbrev pub wrap : ℕ → ℕ
wrap n = n % 18446744073709551616

abbrev pub starts_file : Bytes → Bool
starts_file line = has_prefix line (codes "diff --git")

abbrev pub starts_hunk : Bytes → Bool
starts_hunk line = has_prefix line (codes "@@")

abbrev pub append_section : List (List Bytes) → List Bytes → List (List Bytes)
append_section sections [] = sections
append_section sections (l ∷ ls) = sections ++ ((l ∷ ls) ∷ [])

abbrev pub section_line : Bytes → List (List Bytes) × List Bytes → List (List Bytes) × List Bytes
section_line line s =
    if starts_file line then (append_section s.0 s.1, line ∷ []) else (s.0, s.1 ++ (line ∷ []))

abbrev pub split_lines : List Bytes → List (List Bytes) × List Bytes → List (List Bytes)
split_lines [] s = append_section s.0 s.1
split_lines (line ∷ lines) s = split_lines lines (section_line line s)

unfoldable pub split_diff_by_file : Bytes → List (List Bytes)
split_diff_by_file diff = split_lines (split_on 10 diff) ([], [])

abbrev pub digit_of : ℕ → ℕ → ℕ
digit_of n c = if leb b'0' c && leb c b'9' then wrap (n * 10 + (c - b'0')) else n

abbrev pub line_num : ℕ → Bytes → ℕ
line_num n [] = n
line_num n (c ∷ s) = line_num (digit_of n c) s

unfoldable pub parse_line_num : Bytes → ℕ
parse_line_num s = line_num 0 s

abbrev pub header : ℕ → ℕ → DiffHunk
header start count = record { start_line = start; line_count = count; lines = [] }

abbrev pub header_at : Bytes → Option ℕ → DiffHunk
header_at nums none = header (parse_line_num nums) 1
header_at nums (some comma) =
    header (parse_line_num (take comma nums)) (parse_line_num (drop (comma + 1) nums))

abbrev pub header_part : Bytes → DiffHunk → DiffHunk
header_part part hunk =
    if has_prefix part (codes "+")
    then header_at (drop 1 part) (index (drop 1 part) (codes ","))
    else hunk

abbrev pub header_parts : List Bytes → DiffHunk → DiffHunk
header_parts [] hunk = hunk
header_parts (part ∷ parts) hunk = header_parts parts (header_part part hunk)

abbrev pub header_until : Bytes → Option ℕ → DiffHunk
header_until rest none = header 0 0
header_until rest (some j) = header_parts (split_on 32 (trim_space (take j rest))) (header 0 0)

abbrev pub header_from : Bytes → Option ℕ → DiffHunk
header_from line none = header 0 0
header_from line (some i) =
    header_until (drop (i + 2) line) (index (drop (i + 2) line) (codes "@@"))

unfoldable pub parse_hunk_header : Bytes → DiffHunk
parse_hunk_header line = header_from line (index line (codes "@@"))

abbrev pub type_of : Bytes → LineType
type_of line =
    if has_prefix line (codes "+")
    then LineType.add
    else (if has_prefix line (codes "-") then LineType.remove else LineType.context)

abbrev pub is_kept : LineType → Bool
is_kept LineType.remove = false
is_kept _ = true

-- newLine after the line
abbrev pub next_line : Bytes → ℕ → ℕ
next_line line n = if is_kept (type_of line) then wrap (n + 1) else n

abbrev pub diff_line : Bytes → ℕ → ℕ → DiffLine
diff_line line position n = record {
  line_type = type_of line;
  content = drop 1 line;
  old_line = 0;
  new_line = if is_kept (type_of line) then wrap (n + 1) else 0;
  position = position;
}

-- The loop, with the position and newLine before it; the position after it.
abbrev pub collect : List Bytes → ℕ → ℕ → List DiffLine × ℕ
collect [] position n = ([], position)
collect (line ∷ lines) position n =
    let rest = collect lines (position + 1) (next_line line n) in
    if starts_file line || starts_hunk line
    then ([], position)
    else (diff_line line (position + 1) n ∷ rest.0, rest.1)

-- startLine - 1, which wraps around.
abbrev pub line_before : ℕ → ℕ
line_before start = wrap (start + 18446744073709551615)

unfoldable pub collect_hunk_lines : List Bytes → ℕ → ℕ → List DiffLine × ℕ
collect_hunk_lines lines position start = collect lines position (line_before start)

abbrev pub file_header : Bytes → DiffFile → DiffFile
file_header line f =
    if has_prefix line (codes "+++ b/")
    then record { path = drop 6 line; hunks = f.hunks; new_file = f.new_file; deleted = f.deleted }
    else (if has_prefix line (codes "+++ /dev/null")
        then record { path = f.path; hunks = f.hunks; new_file = f.new_file; deleted = true }
        else (if has_prefix line (codes "new file mode")
              || (has_prefix line (codes "--- /dev/null") && not f.deleted)
            then record { path = f.path; hunks = f.hunks; new_file = true; deleted = f.deleted }
            else f))

abbrev pub add_hunk : DiffHunk → List DiffLine → DiffFile → DiffFile
add_hunk hunk ls f = record {
  path = f.path;
  hunks =
      f.hunks
      ++ (record { start_line = hunk.start_line; line_count = hunk.line_count; lines = ls } ∷ []);
  new_file = f.new_file;
  deleted = f.deleted;
}

abbrev pub file_line : Bytes → List Bytes → DiffFile × ℕ → DiffFile × ℕ
file_line line lines s =
    let f = file_header line s.0 in
    let hunk = parse_hunk_header line in
    let got = collect_hunk_lines lines s.1 hunk.start_line in
    if starts_hunk line then (add_hunk hunk got.0 f, got.1) else (f, s.1)

abbrev pub file_lines : List Bytes → DiffFile × ℕ → DiffFile
file_lines [] s = s.0
file_lines (line ∷ lines) s = file_lines lines (file_line line lines s)

abbrev pub new_diff_file : DiffFile
new_diff_file = record { path = []; hunks = []; new_file = false; deleted = false }

unfoldable pub parse_diff_file : List Bytes → DiffFile
parse_diff_file lines = file_lines lines (new_diff_file, 0)

abbrev pub with_path : DiffFile → List DiffFile → List DiffFile
with_path f fs = if leb 1 (length f.path) then f ∷ fs else fs

abbrev pub parse_sections : List (List Bytes) → List DiffFile
parse_sections [] = []
parse_sections (section ∷ sections) = with_path (parse_diff_file section) (parse_sections sections)

unfoldable pub parse_diff : Bytes → List DiffFile
parse_diff diff = parse_sections (split_diff_by_file diff)

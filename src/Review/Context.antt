-- ===== src/Review/Context.antt =====
-- LineToPosition and BuildDiffContext of pr-review/review/parser.go.
pub mod Printed
pub mod Found
use shipmates_oss.Prelude.{
  ℕ, ◌+◌, ◌*◌, Bool, true, false, ◌&&◌, Option, none, some, List, [], ◌∷◌, ◌++◌, take, length, ltb,
  ◌==◌, if◌then◌else◌,
}
use shipmates_oss.Prelude.Bytes.{Bytes, codes, bytes_eq}
use shipmates_oss.Review.Diff.{
  LineType, add, remove, context, is_kept, DiffLine, DiffFile, hunk_lines,
}

abbrev pub line_in_lines : ℕ → List DiffLine → Option ℕ
line_in_lines n [] = none
line_in_lines n (l ∷ ls) =
    let rest = line_in_lines n ls in
    if l.new_line == n && is_kept l.line_type then some l.position else rest

abbrev pub position_or : Option ℕ → ℕ → ℕ
position_or none rest = rest
position_or (some p) rest = p

unfoldable pub line_to_position : List DiffFile → Bytes → ℕ → ℕ
line_to_position [] path n = 0
line_to_position (f ∷ fs) path n =
    let rest = line_to_position fs path n in
    if bytes_eq f.path path then position_or (line_in_lines n (hunk_lines f.hunks)) rest else rest

abbrev pub sign : LineType → ℕ
sign LineType.add = b'+'
sign LineType.remove = b'-'
sign LineType.context = b' '

abbrev pub line_text : DiffLine → Bytes
line_text l = sign l.line_type ∷ (l.content ++ (10 ∷ []))

abbrev pub lines_text : List DiffLine → Bytes
lines_text [] = []
lines_text (l ∷ ls) = line_text l ++ lines_text ls

unfoldable pub build_file_content : DiffFile → Bytes
build_file_content f = lines_text (hunk_lines f.hunks)

abbrev pub truncated : ℕ → Bytes → Bytes
truncated most content =
    if ltb most (length content)
    then take most content ++ (10 ∷ codes "... (truncated)")
    else content

abbrev pub files_text : ℕ → List DiffFile → Bytes
files_text most [] = []
files_text most (f ∷ fs) =
    (10 ∷ codes "--- ")
    ++ f.path
    ++ codes " ---"
    ++ (10 ∷ truncated most (build_file_content f))
    ++ files_text most fs

unfoldable pub build_diff_context : List DiffFile → ℕ → Bytes
build_diff_context files max_tokens_per_file = files_text (max_tokens_per_file * 4) (take 100 files)

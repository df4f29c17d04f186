-- ===== src/Review/Diff/Numbers.antt =====
-- The numbers that ParseDiff (pr-review/review/parser.go) gives lines.
use shipmates_oss.Prelude.{
  ℕ, zero, suc, ◌+◌, ◌<◌, ◌≡◌, refl, sym, ap, ◌∙◌, inl, inr, Bool, true, false, not, ◌&&◌, ◌||◌,
  Option, none, some, List, [], ◌∷◌, ◌++◌, append-nil, append_assoc, map, select, take, drop,
  length, length-append, leb, if◌then◌else◌, Bool-cases, All, All-imp, In, arith,
}
use shipmates_oss.Prelude.Bytes.{Bytes, codes, has_prefix, index, split_on, trim_space}
use shipmates_oss.Review.Diff.Header.{GitHeader, header_text, parse_hunk_header-header_text}
use shipmates_oss.Review.Diff.{
  DiffLine, DiffHunk, DiffFile, hunk_lines, wrap, starts_file, starts_hunk, digit_of, line_num,
  parse_line_num, header, header_at, header_part, header_parts, header_until, header_from,
  parse_hunk_header, type_of, is_kept, next_line, collect, line_before, collect_hunk_lines,
  file_header, add_hunk, file_line, file_lines, new_diff_file, parse_diff_file, parse_sections,
  split_diff_by_file, parse_diff,
}

-- So many numbers from one on.
abbrev pub up_from : ℕ → ℕ → List ℕ
up_from n zero = []
up_from n (suc k) = n ∷ up_from (n + 1) k

-- The same for numbers of 64 bits.
abbrev pub wrapped_from : ℕ → ℕ → List ℕ
wrapped_from n zero = []
wrapped_from n (suc k) = n ∷ wrapped_from (wrap (n + 1)) k

-- The lines that are not taken as removed.
abbrev pub kept : List DiffLine → List DiffLine
kept = select (λ (l : DiffLine). is_kept l.line_type)

abbrev pub positions : List DiffLine → List ℕ
positions = map (λ (l : DiffLine). l.position)

abbrev pub new_lines : List DiffLine → List ℕ
new_lines = map (λ (l : DiffLine). l.new_line)

-- A hunk numbers the lines that it does not take as removed from its start.
abbrev pub IsNumberedHunk : DiffHunk → Type 0
IsNumberedHunk h = new_lines (kept h.lines) ≡ wrapped_from h.start_line (length (kept h.lines))

-- The positions of a file count the lines of its hunks from 1.
abbrev pub IsNumbered : DiffFile → Type 0
IsNumbered f =
    (positions (hunk_lines f.hunks) ≡ up_from 1 (length (hunk_lines f.hunks)))
    × All IsNumberedHunk f.hunks

abbrev pub starts : List DiffHunk → List ℕ
starts = map (λ (h : DiffHunk). h.start_line)

-- The headers of hunks among the lines.
abbrev pub headers : List Bytes → List DiffHunk
headers lines = map parse_hunk_header (select starts_hunk lines)

-- The file is made of a part of the diff: it has a hunk for each header there, with the start that the header gives.
abbrev pub IsNumberedIn : Bytes → DiffFile → Type 0
IsNumberedIn diff f =
    (section : List Bytes) × In section (split_diff_by_file diff)
    × (starts f.hunks ≡ starts (headers section))
    × IsNumbered f

collect-positions :
    (lines : List Bytes) (p n : ℕ)
    → positions (collect lines p n).0 ≡ up_from (p + 1) (length (collect lines p n).0)
collect-positions [] p n = refl
collect-positions (line ∷ lines) p n = elim (Bool-cases (starts_file line || starts_hunk line)) [
  | inl e ↦ rw e refl
  | inr e ↦ rw e (ap (λ l. (p + 1) ∷ l) (collect-positions lines (p + 1) (next_line line n)))
]

collect_end :
    (lines : List Bytes) (p n : ℕ) → (collect lines p n).1 ≡ p + length (collect lines p n).0
collect_end [] p n = omega arith
collect_end (line ∷ lines) p n = elim (Bool-cases (starts_file line || starts_hunk line)) [
  | inl e ↦ rw e (omega arith)
  | inr e ↦ let ih = collect_end lines (p + 1) (next_line line n) in rw e (omega (arith, ih))
]

collect-new_lines :
    (lines : List Bytes) (p n : ℕ)
    → new_lines (kept (collect lines p n).0)
      ≡ wrapped_from (wrap (n + 1)) (length (kept (collect lines p n).0))
collect-new_lines [] p n = refl
collect-new_lines (line ∷ lines) p n = elim (Bool-cases (starts_file line || starts_hunk line)) [
  | inl e ↦ rw e refl
  | inr e ↦
      let ih = collect-new_lines lines (p + 1) (next_line line n) in
      elim (Bool-cases (is_kept (type_of line))) [
        | inl k ↦ rw (e, k) (ap (λ l. wrap (n + 1) ∷ l) (rw k at ih))
        | inr k ↦ rw (e, k) (rw k at ih)
      ]
]

wrap_before : (s : ℕ) → s < 18446744073709551616 → wrap (line_before s + 1) ≡ s
wrap_before s h = omega arith

digit_of_bound : (n c : ℕ) → n < 18446744073709551616 → digit_of n c < 18446744073709551616
digit_of_bound n c h = ground arith

line_num_bound :
    (n : ℕ) (s : Bytes) → n < 18446744073709551616 → line_num n s < 18446744073709551616
line_num_bound n [] h = h
line_num_bound n (c ∷ s) h = line_num_bound (digit_of n c) s (digit_of_bound n c h)

abbrev IsBounded : DiffHunk → Type 0
IsBounded h = h.start_line < 18446744073709551616

header_at-IsBounded : (nums : Bytes) (o : Option ℕ) → IsBounded (header_at nums o)
unfolding parse_line_num
header_at-IsBounded nums none = line_num_bound 0 nums (omega arith)
header_at-IsBounded nums (some c) = line_num_bound 0 (take c nums) (omega arith)

header_parts-IsBounded :
    (parts : List Bytes) (h : DiffHunk) → IsBounded h → IsBounded (header_parts parts h)
header_parts-IsBounded [] h b = b
header_parts-IsBounded (part ∷ parts) h b =
    header_parts-IsBounded parts (header_part part h)
      (elim (Bool-cases (has_prefix part (codes "+"))) [
        | inl e ↦ rw e (header_at-IsBounded (drop 1 part) (index (drop 1 part) (codes ",")))
        | inr e ↦ rw e b
      ])

header_until-IsBounded : (rest : Bytes) (o : Option ℕ) → IsBounded (header_until rest o)
header_until-IsBounded rest none = omega arith
header_until-IsBounded rest (some j) =
    header_parts-IsBounded (split_on 32 (trim_space (take j rest))) (header 0 0) (omega arith)

header_from-IsBounded : (line : Bytes) (o : Option ℕ) → IsBounded (header_from line o)
header_from-IsBounded line none = omega arith
header_from-IsBounded line (some i) =
    header_until-IsBounded (drop (i + 2) line) (index (drop (i + 2) line) (codes "@@"))

parse_hunk_header-IsBounded : (line : Bytes) → IsBounded (parse_hunk_header line)
unfolding parse_hunk_header
parse_hunk_header-IsBounded line = header_from-IsBounded line (index line (codes "@@"))

up_from-append : (n j k : ℕ) → up_from n j ++ up_from (n + j) k ≡ up_from n (j + k)
up_from-append n zero k =
    let e : n + 0 ≡ n = omega arith in let f : 0 + k ≡ k = omega arith in rw (e, f) refl
up_from-append n (suc j) k =
    let ih = up_from-append (n + 1) j k in
    let e : n + suc j ≡ n + 1 + j = omega arith in
    let f : suc j + k ≡ suc (j + k) = omega arith in rw (e, f) (ap (λ l. n ∷ l) ih)

map-append : (xs ys : List DiffLine) → positions (xs ++ ys) ≡ positions xs ++ positions ys
map-append [] ys = refl
map-append (x ∷ xs) ys = ap (λ l. x.position ∷ l) (map-append xs ys)

pub hunk_lines-append :
    (hs : List DiffHunk) (h : DiffHunk) → hunk_lines (hs ++ (h ∷ [])) ≡ hunk_lines hs ++ h.lines
hunk_lines-append [] h = append-nil h.lines
hunk_lines-append (g ∷ hs) h =
    ap (λ l. g.lines ++ l) (hunk_lines-append hs h)
    ∙ sym (append_assoc g.lines (hunk_lines hs) h.lines)

All-snoc :
    (hs : List DiffHunk) (h : DiffHunk)
    → All IsNumberedHunk hs
    → IsNumberedHunk h
    → All IsNumberedHunk (hs ++ (h ∷ []))
All-snoc [] h a b = (b, tt)
All-snoc (g ∷ hs) h a b = (a.0, All-snoc hs h a.1 b)

-- The position that the loop has reached is the number of the lines so far.
abbrev IsReached : DiffFile × ℕ → Type 0
IsReached s = IsNumbered s.0 × (s.1 ≡ length (hunk_lines s.0.hunks))

collect_hunk_lines-numbered :
    (lines : List Bytes) (p start count : ℕ)
    → start < 18446744073709551616
    → IsNumberedHunk (record {
      start_line = start;
      line_count = count;
      lines = (collect_hunk_lines lines p start).0;
    })
unfolding collect_hunk_lines
collect_hunk_lines-numbered lines p start count b =
    collect-new_lines lines p (line_before start)
    ∙ ap (λ m. wrapped_from m (length (kept (collect lines p (line_before start)).0)))
        (wrap_before start b)

added-IsReached :
    (lines : List Bytes) (hunk : DiffHunk) (f : DiffFile) (p : ℕ)
    → IsBounded hunk
    → IsReached (f, p)
    → IsReached (
      add_hunk hunk (collect_hunk_lines lines p hunk.start_line).0 f,
      (collect_hunk_lines lines p hunk.start_line).1,
    )
unfolding collect_hunk_lines
added-IsReached lines hunk f p b r =
    let got = collect lines p (line_before hunk.start_line) in
    let h : DiffHunk = record {
      start_line = hunk.start_line;
      line_count = hunk.line_count;
      lines = got.0;
    } in
    let old = hunk_lines f.hunks in
    let e = hunk_lines-append f.hunks h in
    let more = length-append old got.0 in
    let place : p ≡ length old = r.1 in
    let here : positions got.0 ≡ up_from (1 + length old) (length got.0) =
      collect-positions lines p (line_before hunk.start_line)
      ∙ ap (λ m. up_from m (length got.0)) (omega (arith, place)) in
    (
      (
        rw (e, more, map-append old got.0, r.0.0, here)
            (up_from-append 1 (length old) (length got.0)),
        All-snoc f.hunks h r.0.1
            (collect_hunk_lines-numbered lines p hunk.start_line hunk.line_count b),
      ),
      collect_end lines p (line_before hunk.start_line)
          ∙ (rw (e, more) (ap (λ m. m + length got.0) place)),
    )

if_hunks :
    (b : Bool) (f g : DiffFile) (hs : List DiffHunk)
    → f.hunks ≡ hs
    → g.hunks ≡ hs
    → (if b then f else g).hunks ≡ hs
if_hunks true f g hs h k = h
if_hunks false f g hs h k = k

file_header_hunks : (line : Bytes) (f : DiffFile) → (file_header line f).hunks ≡ f.hunks
file_header_hunks line f = if_hunks (has_prefix line (codes "+++ b/")) _ _ f.hunks refl (
    if_hunks (has_prefix line (codes "+++ /dev/null")) _ _ f.hunks refl (
      if_hunks
        (has_prefix line (codes "new file mode")
          || (has_prefix line (codes "--- /dev/null") && not f.deleted))
        _ _ f.hunks refl refl))

file_line-IsReached :
    (line : Bytes) (lines : List Bytes) (s : DiffFile × ℕ)
    → IsReached s
    → IsReached (file_line line lines s)
file_line-IsReached line lines s r =
    let e = file_header_hunks line s.0 in
    let r' : IsReached (file_header line s.0, s.1) = rw e r in
    elim (Bool-cases (starts_hunk line)) [
      | inl h ↦ rw h (
          added-IsReached lines (parse_hunk_header line) (file_header line s.0) s.1
            (parse_hunk_header-IsBounded line) r')
      | inr h ↦ rw h r'
    ]

file_lines-IsNumbered :
    (lines : List Bytes) (s : DiffFile × ℕ) → IsReached s → IsNumbered (file_lines lines s)
file_lines-IsNumbered [] s r = r.0
file_lines-IsNumbered (line ∷ lines) s r =
    file_lines-IsNumbered lines (file_line line lines s) (file_line-IsReached line lines s r)

parse_diff_file-IsNumbered : (lines : List Bytes) → IsNumbered (parse_diff_file lines)
unfolding parse_diff_file
parse_diff_file-IsNumbered lines = file_lines-IsNumbered lines (new_diff_file, 0) ((refl, tt), refl)

starts-append :
    (hs : List DiffHunk) (n c : ℕ) (ls : List DiffLine)
    → starts (hs ++ (record { start_line = n; line_count = c; lines = ls } ∷ []))
      ≡ starts hs ++ (n ∷ [])
starts-append [] n c ls = refl
starts-append (h ∷ hs) n c ls = ap (λ l. h.start_line ∷ l) (starts-append hs n c ls)

file_line-starts :
    (line : Bytes) (lines : List Bytes) (s : DiffFile × ℕ)
    → starts (file_line line lines s).0.hunks ++ starts (headers lines)
      ≡ starts s.0.hunks ++ starts (headers (line ∷ lines))
file_line-starts line lines s =
    let e = file_header_hunks line s.0 in
    let hunk = parse_hunk_header line in
    elim (Bool-cases (starts_hunk line)) [
      | inl h ↦
          rw
            (
              h,
              e,
              starts-append s.0.hunks hunk.start_line hunk.line_count
                  (collect_hunk_lines lines s.1 hunk.start_line).0,
            )
            (append_assoc (starts s.0.hunks) (hunk.start_line ∷ []) (starts (headers lines)))
      | inr h ↦ rw (h, e) refl
    ]

file_lines-starts :
    (lines : List Bytes) (s : DiffFile × ℕ)
    → starts (file_lines lines s).hunks ≡ starts s.0.hunks ++ starts (headers lines)
file_lines-starts [] s = sym (append-nil (starts s.0.hunks))
file_lines-starts (line ∷ lines) s =
    file_lines-starts lines (file_line line lines s) ∙ file_line-starts line lines s

parse_diff_file-starts :
    (lines : List Bytes) → starts (parse_diff_file lines).hunks ≡ starts (headers lines)
unfolding parse_diff_file
parse_diff_file-starts lines = file_lines-starts lines (new_diff_file, 0)

abbrev IsNumberedOf : List (List Bytes) → DiffFile → Type 0
IsNumberedOf sections f =
    (section : List Bytes) × In section sections
    × (starts f.hunks ≡ starts (headers section))
    × IsNumbered f

parse_sections-IsNumberedOf :
    (sections : List (List Bytes)) → All (IsNumberedOf sections) (parse_sections sections)
parse_sections-IsNumberedOf [] = tt
parse_sections-IsNumberedOf (section ∷ sections) =
    let rest =
      All-imp (IsNumberedOf sections) (IsNumberedOf (section ∷ sections)) (parse_sections sections)
        (λ f m. (m.0, inr m.1, m.2, m.3)) (parse_sections-IsNumberedOf sections) in
    elim (Bool-cases (leb 1 (length (parse_diff_file section).path))) [
      | inl e ↦ rw e (
        (section, inl refl, parse_diff_file-starts section, parse_diff_file-IsNumbered section),
        rest,
      )
      | inr e ↦ rw e rest
    ]

-- In each file that parse_diff finds the positions of the lines of all hunks are 1, 2, 3 and so on. The file has a
-- hunk for each header in its part of the diff, in order, and each hunk numbers the lines that it does not
-- take as removed one by one from the start that parse_hunk_header reads there, in 64 bits; a marker that a file has
-- no newline at its end is among these lines. Of a header as git writes it, with a start and a number of lines, that
-- start and that number are read, as parse_line_num reads their digits.
pub parse_diff-IsNumbered :
    (diff : Bytes) (g : GitHeader)
    → All (IsNumberedIn diff) (parse_diff diff)
      × (parse_hunk_header (header_text g)
          ≡ header (parse_line_num g.start) (parse_line_num g.count))
unfolding parse_diff
parse_diff-IsNumbered diff g =
    (parse_sections-IsNumberedOf (split_diff_by_file diff), parse_hunk_header-header_text g)

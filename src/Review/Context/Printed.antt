-- ===== src/Review/Context/Printed.antt =====
-- buildFileContent against collectHunkLines (pr-review/review/parser.go).
use shipmates_oss.Prelude.{
  ℕ, ◌+◌, ◌≡◌, refl, sym, ap, ◌∙◌, inl, inr, Bool, true, false, ◌||◌, List, [], ◌∷◌, ◌++◌,
  append_assoc, drop, ◌==◌, ==_iff, if◌then◌else◌, Bool-cases, All, arith,
}
use shipmates_oss.Prelude.Bytes.{Bytes}
use shipmates_oss.Review.Diff.{
  DiffLine, DiffHunk, DiffFile, hunk_lines, starts_file, starts_hunk, type_of, next_line, collect,
  line_before, collect_hunk_lines, add_hunk,
}
use shipmates_oss.Review.Diff.Numbers.{hunk_lines-append}
use shipmates_oss.Review.Context.{sign, lines_text, build_file_content}

-- A line of a hunk as git prints it.
abbrev pub is_marked : Bytes → Bool
is_marked [] = false
is_marked (c ∷ s) = c == b'+' || (c == b'-' || c == b' ')

-- The lines up to the next hunk or file.
abbrev pub body : List Bytes → List Bytes
body [] = []
body (line ∷ lines) =
    let rest = body lines in if starts_file line || starts_hunk line then [] else line ∷ rest

abbrev pub printed : List Bytes → Bytes
printed [] = []
printed (line ∷ lines) = line ++ ((10 ∷ []) ++ printed lines)

marked_sign : (line : Bytes) → is_marked line ≡ true → sign (type_of line) ∷ drop 1 line ≡ line
marked_sign [] h = absurd (ground arith)
marked_sign (c ∷ s) h = elim (Bool-cases (c == b'+')) [
  | inl e ↦ rw (e, (==_iff c b'+').0 e) refl
  | inr e ↦ elim (Bool-cases (c == b'-')) [
    | inl f ↦ rw (e, f, (==_iff c b'-').0 f) refl
    | inr f ↦ let g : (c == b' ') ≡ true = rw (e, f) at h in rw (e, f, (==_iff c b' ').0 g) refl
  ]
]

lines_text-collect :
    (lines : List Bytes) (p n : ℕ)
    → All (λ l. is_marked l ≡ true) (body lines)
    → lines_text (collect lines p n).0 ≡ printed (body lines)
lines_text-collect [] p n h = refl
lines_text-collect (line ∷ lines) p n h = elim (Bool-cases (starts_file line || starts_hunk line)) [
  | inl e ↦ rw e refl
  | inr e ↦
      let h' : All (λ l. is_marked l ≡ true) (line ∷ body lines) = rw e at h in
      let ih = lines_text-collect lines (p + 1) (next_line line n) h'.1 in
      rw (e, ih)
        (append_assoc (sign (type_of line) ∷ drop 1 line) (10 ∷ []) (printed (body lines))
          ∙ ap (λ l. l ++ ((10 ∷ []) ++ printed (body lines))) (marked_sign line h'.0))
]

lines_text-append : (xs ys : List DiffLine) → lines_text (xs ++ ys) ≡ lines_text xs ++ lines_text ys
lines_text-append [] ys = refl
lines_text-append (x ∷ xs) ys =
    ap (λ l. (sign x.line_type ∷ (x.content ++ (10 ∷ []))) ++ l) (lines_text-append xs ys)
    ∙ sym
        (append_assoc (sign x.line_type ∷ (x.content ++ (10 ∷ []))) (lines_text xs) (lines_text ys))

-- What a hunk adds to the content of its file are its lines, up to the next hunk or file, as they stand in the diff,
-- where each starts with a plus, a minus or a blank.
pub build_file_content-collect_hunk_lines :
    (lines : List Bytes) (p : ℕ) (hunk : DiffHunk) (f : DiffFile)
    → All (λ l. is_marked l ≡ true) (body lines)
    → build_file_content (add_hunk hunk (collect_hunk_lines lines p hunk.start_line).0 f)
      ≡ build_file_content f ++ printed (body lines)
unfolding build_file_content collect_hunk_lines
build_file_content-collect_hunk_lines lines p hunk f h =
    let got = collect lines p (line_before hunk.start_line) in
    rw
      (
        hunk_lines-append f.hunks
            (record { start_line = hunk.start_line; line_count = hunk.line_count; lines = got.0 }),
        lines_text-append (hunk_lines f.hunks) got.0,
        lines_text-collect lines p (line_before hunk.start_line) h,
      )
      refl

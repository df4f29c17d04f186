-- ===== src/TestGen/Scan/Files.antt =====
-- Where the loop of ParseLcov (test-gen/testgen/coverage.go) is not left by its break.
use shipmates_oss.Prelude.{
  ◌+◌, ◌≤◌, ◌≡◌, refl, inl, inr, Option, none, some, false, List, ◌∷◌, drop, length, ltb,
  Bool-cases, arith,
}
use shipmates_oss.Prelude.Bytes.{Bytes, bytes_eq, has_prefix}
use shipmates_oss.Prelude.Int.{ℤ}
use shipmates_oss.TestGen.Atoi.{atoi}
use shipmates_oss.TestGen.Scan.{
  Scan, is_empty, flush, begin, sf, da, end_of_record, next_file, cut, hit_parsed, da_line,
  scan_line, max_files_to_parse,
}
use shipmates_oss.TestGen.Scan.Counts.{names}

-- So many files are to come that the loop is not left.
abbrev pub IsSmall : Scan → List Bytes → Type 0
IsSmall s ps = (s.stopped ≡ false) × (s.file_count + length ps ≤ max_files_to_parse)

pub next_file-IsSmall :
    (p : Bytes) (s : Scan) (ps : List Bytes)
    → IsSmall s (p ∷ ps)
    → IsSmall (next_file p s) ps × (next_file p s ≡ begin p (s.file_count + 1) s)
next_file-IsSmall p s ps h =
    let e : ltb max_files_to_parse (s.file_count + 1) ≡ false = ground (arith, h.1) in
    rw e ((h.0, omega (arith, h.1)), refl)

pub flush-IsSmall : (s : Scan) (ps : List Bytes) → IsSmall s ps → IsSmall (flush s) ps
flush-IsSmall s ps h = elim (Bool-cases (is_empty s.current_file)) [
  | inl e ↦ rw e h
  | inr e ↦ rw e h
]

hit_parsed-IsSmall :
    (line count : Option ℤ) (s : Scan) (ps : List Bytes)
    → IsSmall s ps
    → IsSmall (hit_parsed line count s) ps
hit_parsed-IsSmall none count s ps h = h
hit_parsed-IsSmall (some line) none s ps h = h
hit_parsed-IsSmall (some line) (some count) s ps h = h

da_line-IsSmall :
    (p : Option (Bytes × Bytes)) (s : Scan) (ps : List Bytes)
    → IsSmall s ps
    → IsSmall (da_line p s) ps
da_line-IsSmall none s ps h = h
da_line-IsSmall (some p) s ps h = hit_parsed-IsSmall (atoi p.0) (atoi p.1) s ps h

pub scan_line-IsSmall :
    (line : Bytes) (lines : List Bytes) (s : Scan)
    → IsSmall s (names (line ∷ lines))
    → IsSmall (scan_line line s) (names lines)
scan_line-IsSmall line lines s h = elim (Bool-cases (has_prefix line sf)) [
  | inl e ↦
      let h' : IsSmall s (drop 3 line ∷ names lines) = rw e at h in
      rw e
        (next_file-IsSmall (drop 3 line) (flush s) (names lines)
          (flush-IsSmall s (drop 3 line ∷ names lines) h')).0
  | inr e ↦
      let h' : IsSmall s (names lines) = rw e at h in
      elim (Bool-cases (has_prefix line da)) [
        | inl f ↦ rw (e, f) (da_line-IsSmall (cut (drop 3 line)) s (names lines) h')
        | inr f ↦ elim (Bool-cases (bytes_eq line end_of_record)) [
          | inl g ↦ rw (e, f, g) ((flush-IsSmall s (names lines) h').0, h'.1)
          | inr g ↦ rw (e, f, g) h'
        ]
      ]
]

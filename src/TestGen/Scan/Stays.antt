-- ===== src/TestGen/Scan/Stays.antt =====
-- What the loop of ParseLcov (test-gen/testgen/coverage.go) has filed stays, and hits go to the current record.
use shipmates_oss.Prelude.{
  ℕ, ◌+◌, ◌≡◌, refl, sym, ap, ◌∙◌, inl, inr, Option, none, some, false, List, [], ◌∷◌, ◌++◌,
  append-nil, count, drop, length-append, if◌then◌else◌, ltb, Bool-cases, All, arith,
}
use shipmates_oss.Prelude.Bytes.{Bytes, bytes_eq, has_prefix}
use shipmates_oss.Prelude.Int.{ℤ, pos, ltb_ℤ}
use shipmates_oss.TestGen.Atoi.{atoi}
use shipmates_oss.TestGen.Scan.{
  uncovered_of, Scan, is_empty, flush, begin, hit, sf, da, end_of_record, next_file, cut,
  hit_parsed, da_line, scan_line, scan_lines, max_files_to_parse,
}
use shipmates_oss.TestGen.Scan.Maps.{uncovered_of-set_path}
use shipmates_oss.TestGen.Scan.Counts.{names, is_current}
use shipmates_oss.TestGen.Scan.Records.{
  Hit, has_run, not_run, counted_of, IsFiled, IsCounting, counted_of-set_path, count-append,
  not_run-append,
}

-- What is filed, and is not of the current file, stays.
pub record Stays (s : Scan) (p : Bytes) (hs : List Hit) : Type 0 where
  pub filed : IsFiled s p hs
  pub apart : is_current s p ≡ false

pub uncovered-flush :
    (s : Scan) (p : Bytes)
    → is_current s p ≡ false
    → uncovered_of (flush s).uncovered_lines p ≡ uncovered_of s.uncovered_lines p
uncovered-flush s p a = elim (Bool-cases (is_empty s.current_file)) [
  | inl e ↦ rw e refl
  | inr e ↦
      let other : bytes_eq s.current_file p ≡ false = rw e at a in
      rw e (elim (Bool-cases (is_empty s.current_uncovered)) [
        | inl n ↦ rw n refl
        | inr n ↦ rw n (
            uncovered_of-set_path s.current_file s.current_uncovered s.uncovered_lines p
            ∙ rw other refl)
      ])
]

counted-flush :
    (s : Scan) (p : Bytes)
    → is_current s p ≡ false
    → counted_of (flush s).file_coverage p ≡ counted_of s.file_coverage p
counted-flush s p a = elim (Bool-cases (is_empty s.current_file)) [
  | inl e ↦ rw e refl
  | inr e ↦
      let other : bytes_eq s.current_file p ≡ false = rw e at a in
      rw e (counted_of-set_path s.current_file _ s.file_coverage p ∙ rw other refl)
]

flush_file : (s : Scan) → (flush s).current_file ≡ s.current_file
flush_file s = elim (Bool-cases (is_empty s.current_file)) [ inl e ↦ rw e refl | inr e ↦ rw e refl ]

flush-Stays : (s : Scan) (p : Bytes) (hs : List Hit) → Stays s p hs → Stays (flush s) p hs
flush-Stays s p hs h = record {
  filed = record {
    entry = counted-flush s p h.apart ∙ h.filed.entry;
    lines = uncovered-flush s p h.apart ∙ h.filed.lines;
  };
  apart = rw (flush_file s) h.apart;
}

-- With a file in the table the next record can start, if it is of another file.
pub begin-Stays :
    (q : Bytes) (n : ℕ) (s : Scan) (p : Bytes) (hs : List Hit)
    → IsFiled s p hs
    → (if is_empty q then false else bytes_eq q p) ≡ false
    → Stays (begin q n s) p hs
begin-Stays q n s p hs h a = record {
  filed = record { entry = h.entry; lines = h.lines };
  apart = a;
}

pub other_name :
    (q p : Bytes) → bytes_eq q p ≡ false → (if is_empty q then false else bytes_eq q p) ≡ false
other_name q p e = elim (Bool-cases (is_empty q)) [ inl n ↦ rw n refl | inr n ↦ rw n e ]

next_file-Stays :
    (q : Bytes) (s : Scan) (p : Bytes) (hs : List Hit)
    → bytes_eq q p ≡ false
    → Stays s p hs
    → Stays (next_file q s) p hs
next_file-Stays q s p hs e h = elim (Bool-cases (ltb max_files_to_parse (s.file_count + 1))) [
  | inl t ↦
      rw t (record {
        filed = record { entry = h.filed.entry; lines = h.filed.lines };
        apart = h.apart;
      })
  | inr t ↦ rw t (begin-Stays q (s.file_count + 1) s p hs h.filed (other_name q p e))
]

hit_parsed-Stays :
    (line times : Option ℤ) (s : Scan) (p : Bytes) (hs : List Hit)
    → Stays s p hs
    → Stays (hit_parsed line times s) p hs
hit_parsed-Stays none times s p hs h = h
hit_parsed-Stays (some line) none s p hs h = h
hit_parsed-Stays (some line) (some times) s p hs h = record {
  filed = record { entry = h.filed.entry; lines = h.filed.lines };
  apart = h.apart;
}

da_line-Stays :
    (o : Option (Bytes × Bytes)) (s : Scan) (p : Bytes) (hs : List Hit)
    → Stays s p hs
    → Stays (da_line o s) p hs
da_line-Stays none s p hs h = h
da_line-Stays (some o) s p hs h = hit_parsed-Stays (atoi o.0) (atoi o.1) s p hs h

-- No record of this file is among the lines.
abbrev pub IsAbsent : Bytes → List Bytes → Type 0
IsAbsent p lines = All (λ q. bytes_eq q p ≡ false) (names lines)

scan_line-Stays :
    (line : Bytes) (lines : List Bytes) (s : Scan) (p : Bytes) (hs : List Hit)
    → IsAbsent p (line ∷ lines)
    → Stays s p hs
    → Stays (scan_line line s) p hs × IsAbsent p lines
scan_line-Stays line lines s p hs d h = elim (Bool-cases (has_prefix line sf)) [
  | inl e ↦
      let d' : All (λ q. bytes_eq q p ≡ false) (drop 3 line ∷ names lines) = rw e at d in
      rw e (next_file-Stays (drop 3 line) (flush s) p hs d'.0 (flush-Stays s p hs h), d'.1)
  | inr e ↦
      let d' : IsAbsent p lines = rw e at d in
      elim (Bool-cases (has_prefix line da)) [
        | inl f ↦ rw (e, f) (da_line-Stays (cut (drop 3 line)) s p hs h, d')
        | inr f ↦ elim (Bool-cases (bytes_eq line end_of_record)) [
          | inl g ↦
              rw (e, f, g)
                (begin-Stays [] s.file_count (flush s) p hs (flush-Stays s p hs h).filed refl, d')
          | inr g ↦ rw (e, f, g) (h, d')
        ]
      ]
]

scan_lines-Stays :
    (lines : List Bytes) (s : Scan) (p : Bytes) (hs : List Hit)
    → IsAbsent p lines
    → Stays s p hs
    → Stays (scan_lines lines s) p hs
scan_lines-Stays [] s p hs d h = h
scan_lines-Stays (line ∷ lines) s p hs d h =
    let k = scan_line-Stays line lines s p hs d h in
    elim (Bool-cases (scan_line line s).stopped) [
      | inl e ↦ rw e k.0
      | inr e ↦ rw e (scan_lines-Stays lines (scan_line line s) p hs k.1 k.0)
    ]

pub finally :
    (lines : List Bytes) (s : Scan) (p : Bytes) (hs : List Hit)
    → IsAbsent p lines
    → Stays s p hs
    → IsFiled (flush (scan_lines lines s)) p hs
finally lines s p hs d h =
    (flush-Stays (scan_lines lines s) p hs (scan_lines-Stays lines s p hs d h)).filed

hit_covered :
    (line times : ℤ) (c : ℕ) (hs : List Hit)
    → c ≡ count has_run hs
    → (if ltb_ℤ (pos 0) times then c + 1 else c) ≡ count has_run (hs ++ ((line, times) ∷ []))
hit_covered line times c hs h =
    let ran = count-append hs ((line, times) ∷ []) in
    elim (Bool-cases (ltb_ℤ (pos 0) times)) [
      | inl e ↦ let ran' = rw e at ran in rw e (omega (arith, h, ran'))
      | inr e ↦ let ran' = rw e at ran in rw e (omega (arith, h, ran'))
    ]

hit_uncovered :
    (line times : ℤ) (ls : List ℤ) (hs : List Hit)
    → ls ≡ not_run hs
    → (if ltb_ℤ (pos 0) times then ls else ls ++ (line ∷ [])) ≡ not_run (hs ++ ((line, times) ∷ []))
hit_uncovered line times ls hs h =
    let rest = not_run-append hs ((line, times) ∷ []) in
    elim (Bool-cases (ltb_ℤ (pos 0) times)) [
      | inl e ↦
          let rest' : not_run (hs ++ ((line, times) ∷ [])) ≡ not_run hs ++ [] = rw e at rest in
          rw e (h ∙ sym (append-nil (not_run hs)) ∙ sym rest')
      | inr e ↦
          let rest' : not_run (hs ++ ((line, times) ∷ [])) ≡ not_run hs ++ (line ∷ []) =
            rw e at rest in
          rw e (ap (λ l. l ++ (line ∷ [])) h ∙ sym rest')
    ]

-- A hit goes to the current record.
pub hit-IsCounting :
    (line times : ℤ) (s : Scan) (p : Bytes) (hs : List Hit)
    → IsCounting s p hs
    → IsCounting (hit line times s) p (hs ++ ((line, times) ∷ []))
hit-IsCounting line times s p hs h =
    let more = length-append hs ((line, times) ∷ []) in
    let before = h.total in
    record {
      file = h.file;
      covered = hit_covered line times s.lines_covered hs h.covered;
      total = omega (arith, more, before);
      uncovered = hit_uncovered line times s.current_uncovered hs h.uncovered;
      fresh = h.fresh;
    }

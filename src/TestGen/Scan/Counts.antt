-- ===== src/TestGen/Scan/Counts.antt =====
-- What the loop of ParseLcov (test-gen/testgen/coverage.go) keeps.
use shipmates_oss.Prelude.{
  ℕ, ◌+◌, ◌≡◌, ◌≢◌, refl, ap, ◌∙◌, inl, inr, Option, none, some, Bool, true, false, List, [], ◌∷◌,
  ◌++◌, drop, length, length-append, if◌then◌else◌, ltb, Bool-cases, All, All-In, In-All, All-imp,
  arith,
}
use shipmates_oss.Prelude.Bytes.{Bytes, bytes_eq, has_prefix}
use shipmates_oss.TestGen.Atoi.{atoi}
use shipmates_oss.Prelude.Prefixes.{bytes_eq_refl}
use shipmates_oss.Prelude.Int.{ℤ, pos, ltb_ℤ}
use shipmates_oss.TestGen.Scan.Maps.{uncovered_of-file, All-set_path}
use shipmates_oss.TestGen.Scan.{
  PathMap, uncovered_of, Counted, Scan, is_empty, file_record, flush, begin, stop, hit, sf, da,
  end_of_record, next_file, cut, hit_parsed, da_line, scan_line, scan_lines, max_files_to_parse,
  new_scan,
}

abbrev pub names : List Bytes → List Bytes
names [] = []
names (line ∷ lines) =
    let rest = names lines in if has_prefix line sf then drop 3 line ∷ rest else rest

abbrev pub IsDistinct : List Bytes → Type 0
IsDistinct [] = Unit
IsDistinct (p ∷ ps) = All (λ q. bytes_eq p q ≡ false) ps × IsDistinct ps

-- The current record is one of this file.
abbrev pub is_current : Scan → Bytes → Bool
is_current s p = if is_empty s.current_file then false else bytes_eq s.current_file p

abbrev pub IsCounted : PathMap (List ℤ) → Bytes × Counted → Type 0
IsCounted u e = e.1.lines_covered + length (uncovered_of u e.0) ≡ e.1.lines_total

other_file :
    (s : Scan) (p : Bytes)
    → is_empty s.current_file ≡ false
    → is_current s p ≡ false
    → bytes_eq s.current_file p ≡ false
other_file s p e h = rw e at h

empty_nil : (xs : List ℤ) → is_empty xs ≡ true → xs ≡ []
empty_nil [] e = refl
empty_nil (x ∷ xs) e = absurd (ground arith)

append_nonempty : (xs : List ℤ) (x : ℤ) → is_empty (xs ++ (x ∷ [])) ≢ true
append_nonempty [] x e = ground arith
append_nonempty (y ∷ ys) x e = ground arith

if_same : (b : Bool) → (if b then false else false) ≡ false
if_same true = refl
if_same false = refl

-- What the loop keeps, where records of these files come.
pub record Keeps (s : Scan) (ps : List Bytes) : Type 0 where
  pub counts : s.lines_covered + length s.current_uncovered ≡ s.lines_total
  pub filed : All (IsCounted s.uncovered_lines) s.file_coverage
  pub quiet :
      is_empty s.current_uncovered ≡ true
      → is_empty s.current_file ≡ false
      → uncovered_of s.uncovered_lines s.current_file ≡ []
  pub fresh : All (λ p. (uncovered_of s.uncovered_lines p ≡ []) × (is_current s p ≡ false)) ps

-- The lines of a file after the current record, which has a name, is filed.
uncovered_of-file_record :
    (s : Scan) (ps : List Bytes) (k : Bytes)
    → is_empty s.current_file ≡ false
    → Keeps s ps
    → uncovered_of (file_record s).uncovered_lines k ≡ (
        if bytes_eq s.current_file k then s.current_uncovered else uncovered_of s.uncovered_lines k)
uncovered_of-file_record s ps k e h =
    uncovered_of-file s.current_file s.current_uncovered s.uncovered_lines k (λ q. h.quiet q e)

file_record-current :
    (s : Scan) (ps : List Bytes)
    → is_empty s.current_file ≡ false
    → Keeps s ps
    → uncovered_of (file_record s).uncovered_lines s.current_file ≡ s.current_uncovered
file_record-current s ps e h =
    uncovered_of-file_record s ps s.current_file e h ∙ (rw (bytes_eq_refl s.current_file) refl)

file_record_other :
    (s : Scan) (ps : List Bytes) (k : Bytes)
    → is_empty s.current_file ≡ false
    → Keeps s ps
    → bytes_eq s.current_file k ≡ false
    → uncovered_of (file_record s).uncovered_lines k ≡ uncovered_of s.uncovered_lines k
file_record_other s ps k e h q = uncovered_of-file_record s ps k e h ∙ (rw q refl)

file_record-Keeps :
    (s : Scan) (ps : List Bytes)
    → is_empty s.current_file ≡ false
    → Keeps s ps
    → Keeps (file_record s) ps
file_record-Keeps s ps e h = record {
  counts = h.counts;
  filed =
      All-set_path s.current_file
        (record { lines_covered = s.lines_covered; lines_total = s.lines_total }) s.file_coverage
        h.filed
        (λ f q k. ap (λ l. f.1.lines_covered + length l) (file_record_other s ps f.0 e h q) ∙ k)
        (ap (λ l. s.lines_covered + length l) (file_record-current s ps e h) ∙ h.counts);
  quiet = λ a b. file_record-current s ps e h ∙ empty_nil s.current_uncovered a;
  fresh =
      All-imp (λ p. (uncovered_of s.uncovered_lines p ≡ []) × (is_current s p ≡ false))
        (λ p. (uncovered_of (file_record s).uncovered_lines p ≡ []) × (is_current s p ≡ false)) ps
        (λ p f. (file_record_other s ps p e h (other_file s p e f.1) ∙ f.0, f.1)) h.fresh;
}

pub flush-Keeps : (s : Scan) (ps : List Bytes) → Keeps s ps → Keeps (flush s) ps
flush-Keeps s ps h = elim (Bool-cases (is_empty s.current_file)) [
  | inl e ↦ rw e h
  | inr e ↦ rw e (file_record-Keeps s ps e h)
]

pub stop-Keeps : (n : ℕ) (s : Scan) (ps : List Bytes) → Keeps s ps → Keeps (stop n s) ps
stop-Keeps n s ps h = record {
  counts = h.counts;
  filed = h.filed;
  quiet = h.quiet;
  fresh = h.fresh;
}

pub begin-Keeps :
    (p : Bytes) (n : ℕ) (s : Scan) (ps : List Bytes)
    → Keeps s (p ∷ ps)
    → All (λ q. bytes_eq p q ≡ false) ps
    → Keeps (begin p n s) ps
begin-Keeps p n s ps h d = record {
  counts = refl;
  filed = h.filed;
  quiet = λ a b. h.fresh.0.0;
  fresh =
      In-All (λ q. (uncovered_of s.uncovered_lines q ≡ []) × (is_current (begin p n s) q ≡ false))
        ps
        (λ q m.
          let old =
            All-In (λ q. (uncovered_of s.uncovered_lines q ≡ []) × (is_current s q ≡ false)) ps
              h.fresh.1 m in
          let other = All-In (λ q. bytes_eq p q ≡ false) ps d m in
          (old.0, rw other (if_same (is_empty p))));
}

pub end-Keeps : (n : ℕ) (s : Scan) (ps : List Bytes) → Keeps s ps → Keeps (begin [] n s) ps
end-Keeps n s ps h = record {
  counts = refl;
  filed = h.filed;
  quiet = λ a b. absurd (ground arith);
  fresh =
      All-imp (λ p. (uncovered_of s.uncovered_lines p ≡ []) × (is_current s p ≡ false))
        (λ p. (uncovered_of s.uncovered_lines p ≡ []) × (is_current (begin [] n s) p ≡ false)) ps
        (λ p f. (f.0, refl)) h.fresh;
}

hit_counts :
    (line count : ℤ) (s : Scan)
    → s.lines_covered + length s.current_uncovered ≡ s.lines_total
    → (hit line count s).lines_covered + length (hit line count s).current_uncovered
      ≡ s.lines_total + 1
hit_counts line count s h =
    let more = length-append s.current_uncovered (line ∷ []) in
    elim (Bool-cases (ltb_ℤ (pos 0) count)) [
      | inl e ↦ rw e (omega (arith, h))
      | inr e ↦ rw e (omega (arith, h, more))
    ]

hit_quiet :
    (line count : ℤ) (s : Scan)
    → is_empty (hit line count s).current_uncovered ≡ true
    → is_empty s.current_uncovered ≡ true
hit_quiet line count s h = elim (Bool-cases (ltb_ℤ (pos 0) count)) [
  | inl e ↦ rw e at h
  | inr e ↦ absurd (append_nonempty s.current_uncovered line (rw e at h))
]

pub hit-Keeps :
    (line count : ℤ) (s : Scan) (ps : List Bytes) → Keeps s ps → Keeps (hit line count s) ps
hit-Keeps line count s ps h = record {
  counts = hit_counts line count s h.counts;
  filed = h.filed;
  quiet = λ a b. h.quiet (hit_quiet line count s a) b;
  fresh = h.fresh;
}

next_file-Keeps :
    (p : Bytes) (s : Scan) (ps : List Bytes)
    → Keeps s (p ∷ ps)
    → All (λ q. bytes_eq p q ≡ false) ps
    → Keeps (next_file p s) ps
next_file-Keeps p s ps h d = elim (Bool-cases (ltb max_files_to_parse (s.file_count + 1))) [
  | inl e ↦
      let k = stop-Keeps (s.file_count + 1) s (p ∷ ps) h in
      rw e (record { counts = k.counts; filed = k.filed; quiet = k.quiet; fresh = k.fresh.1 })
  | inr e ↦ rw e (begin-Keeps p (s.file_count + 1) s ps h d)
]

hit_parsed-Keeps :
    (line count : Option ℤ) (s : Scan) (ps : List Bytes)
    → Keeps s ps
    → Keeps (hit_parsed line count s) ps
hit_parsed-Keeps none count s ps h = h
hit_parsed-Keeps (some line) none s ps h = h
hit_parsed-Keeps (some line) (some count) s ps h = hit-Keeps line count s ps h

da_line-Keeps :
    (p : Option (Bytes × Bytes)) (s : Scan) (ps : List Bytes) → Keeps s ps → Keeps (da_line p s) ps
da_line-Keeps none s ps h = h
da_line-Keeps (some p) s ps h = hit_parsed-Keeps (atoi p.0) (atoi p.1) s ps h

pub scan_line-Keeps :
    (line : Bytes) (lines : List Bytes) (s : Scan)
    → IsDistinct (names (line ∷ lines))
    → Keeps s (names (line ∷ lines))
    → Keeps (scan_line line s) (names lines)
scan_line-Keeps line lines s d h = elim (Bool-cases (has_prefix line sf)) [
  | inl e ↦
      let d' : IsDistinct (drop 3 line ∷ names lines) = rw e at d in
      let h' : Keeps s (drop 3 line ∷ names lines) = rw e at h in
      rw e (next_file-Keeps (drop 3 line) (flush s) (names lines) (flush-Keeps s _ h') d'.0)
  | inr e ↦
      let h' : Keeps s (names lines) = rw e at h in
      elim (Bool-cases (has_prefix line da)) [
        | inl f ↦ rw (e, f) (da_line-Keeps (cut (drop 3 line)) s (names lines) h')
        | inr f ↦ elim (Bool-cases (bytes_eq line end_of_record)) [
          | inl g ↦ rw (e, f, g) (end-Keeps s.file_count (flush s) _ (flush-Keeps s _ h'))
          | inr g ↦ rw (e, f, g) h'
        ]
      ]
]

pub tail-IsDistinct :
    (line : Bytes) (lines : List Bytes)
    → IsDistinct (names (line ∷ lines))
    → IsDistinct (names lines)
tail-IsDistinct line lines d = elim (Bool-cases (has_prefix line sf)) [
  | inl e ↦ let d' : IsDistinct (drop 3 line ∷ names lines) = rw e at d in d'.1
  | inr e ↦ rw e at d
]

forget : (s : Scan) (ps : List Bytes) → Keeps s ps → Keeps s []
forget s ps h = record { counts = h.counts; filed = h.filed; quiet = h.quiet; fresh = tt }

scan_lines-Keeps :
    (lines : List Bytes) (s : Scan)
    → IsDistinct (names lines)
    → Keeps s (names lines)
    → Keeps (scan_lines lines s) []
scan_lines-Keeps [] s d h = h
scan_lines-Keeps (line ∷ lines) s d h =
    let k = scan_line-Keeps line lines s d h in
    elim (Bool-cases (scan_line line s).stopped) [
      | inl e ↦ rw e (forget (scan_line line s) (names lines) k)
      | inr e ↦ rw e (scan_lines-Keeps lines (scan_line line s) (tail-IsDistinct line lines d) k)
    ]

pub new_scan-Keeps : (ps : List Bytes) → Keeps new_scan ps
new_scan-Keeps ps = record {
  counts = refl;
  filed = tt;
  quiet = λ a b. refl;
  fresh = In-All (λ p. ([] ≡ []) × (false ≡ false)) ps (λ p m. (refl, refl));
}

-- The record that is current at the end is filed too.
pub scanned-Keeps :
    (lines : List Bytes) → IsDistinct (names lines) → Keeps (flush (scan_lines lines new_scan)) []
scanned-Keeps lines d =
    flush-Keeps (scan_lines lines new_scan) []
      (scan_lines-Keeps lines new_scan d (new_scan-Keeps (names lines)))

-- ===== src/TestGen/Scan/Records.antt =====
-- What the loop of ParseLcov (test-gen/testgen/coverage.go) files for each record.
use shipmates_oss.Prelude.{
  ◌+◌, ◌≡◌, refl, sym, ap, ◌∙◌, subst, inl, inr, Option, none, some, Bool, true, false, not, ◌&&◌,
  List, [], ◌∷◌, ◌++◌, map, select, count, drop, length, if◌then◌else◌, Bool-cases, arith,
}
use shipmates_oss.Prelude.Bytes.{Bytes, bytes_eq, has_prefix}
use shipmates_oss.Prelude.Prefixes.{bytes_eq_refl, bytes_eq→eq}
use shipmates_oss.Prelude.Int.{ℤ, pos, ltb_ℤ}
use shipmates_oss.TestGen.Atoi.{atoi}
use shipmates_oss.TestGen.Scan.{
  PathMap, set_path, uncovered_of, Counted, Scan, is_empty, flush, sf, da, end_of_record, cut,
}
use shipmates_oss.TestGen.Scan.Maps.{uncovered_of-file}

-- A line number and how often the line ran.
abbrev pub Hit : Type 0
Hit = ℤ × ℤ

abbrev pub both : Option ℤ → Option ℤ → Option Hit
both (some line) (some times) = some (line, times)
both _ _ = none

abbrev pub hit_in : Option (Bytes × Bytes) → Option Hit
hit_in none = none
hit_in (some p) = both (atoi p.0) (atoi p.1)

abbrev pub with_hit : Option Hit → List Hit → List Hit
with_hit none hs = hs
with_hit (some h) hs = h ∷ hs

-- The hits up to the end of a record.
abbrev pub hits_until : List Bytes → List Hit
hits_until [] = []
hits_until (line ∷ lines) =
    let rest = hits_until lines in
    if has_prefix line sf
    then []
    else (if has_prefix line da
        then with_hit (hit_in (cut (drop 3 line))) rest
        else (if bytes_eq line end_of_record then [] else rest))

-- The hits that a report has of a file: those after the line that names it.
abbrev pub hits_of : Bytes → List Bytes → List Hit
hits_of p [] = []
hits_of p (line ∷ lines) =
    let rest = hits_of p lines in
    if has_prefix line sf && bytes_eq (drop 3 line) p then hits_until lines else rest

abbrev pub has_run : Hit → Bool
has_run h = ltb_ℤ (pos 0) h.1

abbrev pub not_run : List Hit → List ℤ
not_run hs = map (λ (h : Hit). h.0) (select (λ (h : Hit). not (has_run h)) hs)

abbrev pub counted_of : {V : Type 0} → PathMap V → Bytes → Option V
counted_of [] p = none
counted_of (e ∷ m) p = let rest = counted_of m p in if bytes_eq e.0 p then some e.1 else rest

abbrev pub counted : List Hit → Counted
counted hs = record { lines_covered = count has_run hs; lines_total = length hs }

-- What is filed of a file is what these hits make.
pub record IsFiled (s : Scan) (p : Bytes) (hs : List Hit) : Type 0 where
  pub entry : counted_of s.file_coverage p ≡ some (counted hs)
  pub lines : uncovered_of s.uncovered_lines p ≡ not_run hs

-- The current record is of this file and has these hits so far.
pub record IsCounting (s : Scan) (p : Bytes) (hs : List Hit) : Type 0 where
  pub file : s.current_file ≡ p
  pub covered : s.lines_covered ≡ count has_run hs
  pub total : s.lines_total ≡ length hs
  pub uncovered : s.current_uncovered ≡ not_run hs
  pub fresh : uncovered_of s.uncovered_lines p ≡ []

pub counted_of-set_path :
    {V : Type 0} (c : Bytes) (v : V) (m : PathMap V) (p : Bytes)
    → counted_of (set_path c v m) p ≡ (if bytes_eq c p then some v else counted_of m p)
counted_of-set_path c v [] p = refl
counted_of-set_path c v (e ∷ m) p =
    let ih = counted_of-set_path c v m p in
    elim (Bool-cases (bytes_eq c e.0)) [
      | inl t ↦ rw (t, ih, sym (bytes_eq→eq c e.0 t)) (same (bytes_eq c p) (some v) (some e.1) _)
      | inr t ↦
          rw (t, ih)
            (elim (Bool-cases (bytes_eq e.0 p)) [
              | inl u ↦
                  let other : bytes_eq c p ≡ false =
                    subst (λ x. bytes_eq c x ≡ false) (bytes_eq→eq e.0 p u) t in
                  rw (u, other) refl
              | inr u ↦ rw u refl
            ])
    ]
  where
    same :
        {A : Type 0} (b : Bool) (x y z : A)
        → (if b then x else z) ≡ (if b then x else (if b then y else z))
    same true x y z = refl
    same false x y z = refl

pub count-append :
    (xs ys : List Hit) → count has_run (xs ++ ys) ≡ count has_run xs + count has_run ys
count-append [] ys = omega arith
count-append (x ∷ xs) ys = let h = count-append xs ys in omega (arith, h)

pub not_run-append : (xs ys : List Hit) → not_run (xs ++ ys) ≡ not_run xs ++ not_run ys
not_run-append [] ys = refl
not_run-append (x ∷ xs) ys = elim (Bool-cases (has_run x)) [
  | inl e ↦ rw e (not_run-append xs ys)
  | inr e ↦ rw e (ap (λ l. x.0 ∷ l) (not_run-append xs ys))
]

-- A record that ends is filed.
pub counting-IsFiled :
    (s : Scan) (p : Bytes) (hs : List Hit)
    → is_empty p ≡ false
    → IsCounting s p hs
    → IsFiled (flush s) p hs
counting-IsFiled s p hs n h =
    let look = uncovered_of-file p (not_run hs) s.uncovered_lines p (λ e. h.fresh) in
    rw (h.file, n, h.covered, h.total, h.uncovered)
      (record {
        entry = counted_of-set_path p (counted hs) s.file_coverage p ∙ rw (bytes_eq_refl p) refl;
        lines = look ∙ rw (bytes_eq_refl p) refl;
      })

-- ===== src/TestGen/Scan/Filed.antt =====
-- The loop of ParseLcov (test-gen/testgen/coverage.go) files each record with its own hits.
use shipmates_oss.Prelude.{
  ℕ, ◌+◌, ◌≤◌, ◌≡◌, refl, sym, ap, ◌∙◌, subst, inl, inr, Option, none, some, true, false, ◌&&◌,
  List, [], ◌∷◌, ◌++◌, append-nil, append_assoc, drop, length, if◌then◌else◌, Bool-cases, All,
  All-In, All-imp, In, arith,
}
use shipmates_oss.Prelude.Bytes.{Bytes, bytes_eq, has_prefix}
use shipmates_oss.Prelude.Prefixes.{bytes_eq_refl, bytes_eq→eq}
use shipmates_oss.Prelude.Int.{ℤ}
use shipmates_oss.TestGen.Atoi.{atoi}
use shipmates_oss.TestGen.Scan.{
  uncovered_of, Scan, is_empty, flush, begin, hit, sf, da, end_of_record, cut, hit_parsed, da_line,
  scan_line, scan_lines, max_files_to_parse, new_scan,
}
use shipmates_oss.TestGen.Scan.Counts.{
  names, IsDistinct, is_current, Keeps, scan_line-Keeps, tail-IsDistinct, new_scan-Keeps,
}
use shipmates_oss.TestGen.Scan.Files.{IsSmall, next_file-IsSmall, flush-IsSmall, scan_line-IsSmall}
use shipmates_oss.TestGen.Scan.Records.{
  Hit, both, hit_in, with_hit, hits_until, hits_of, IsFiled, IsCounting, counting-IsFiled,
}
use shipmates_oss.TestGen.Scan.Stays.{
  IsAbsent, finally, hit-IsCounting, begin-Stays, other_name, uncovered-flush,
}

-- Where the record ends, what it has so far is filed and stays.
ended-IsFiled :
    (q : Bytes) (n : ℕ) (lines : List Bytes) (s : Scan) (p : Bytes) (hs : List Hit)
    → is_empty p ≡ false
    → (if is_empty q then false else bytes_eq q p) ≡ false
    → IsAbsent p lines
    → IsCounting s p hs
    → IsFiled (flush (scan_lines lines (begin q n (flush s)))) p (hs ++ [])
ended-IsFiled q n lines s p hs ne apart d h =
    subst (IsFiled (flush (scan_lines lines (begin q n (flush s)))) p) (sym (append-nil hs)) (
      finally lines (begin q n (flush s)) p hs d
        (begin-Stays q n (flush s) p hs (counting-IsFiled s p hs ne h) apart))

-- How the rest of the lines goes on.
abbrev Continues : List Bytes → Scan → Bytes → List Hit → Type 0
Continues lines s p hs =
    (t : Scan) (gs : List Hit)
    → IsSmall t (names lines)
    → IsCounting t p gs
    → IsFiled (flush (scan_lines lines t)) p (gs ++ hits_until lines)

parsed-IsFiled :
    (lines : List Bytes) (s : Scan) (p : Bytes) (hs : List Hit) (line times : Option ℤ)
    → Continues lines s p hs
    → IsSmall s (names lines)
    → IsCounting s p hs
    → IsFiled
        (flush (scan_lines lines (hit_parsed line times s)))
        p
        (hs ++ with_hit (both line times) (hits_until lines))
parsed-IsFiled lines s p hs none times k small h = k s hs small h
parsed-IsFiled lines s p hs (some line) none k small h = k s hs small h
parsed-IsFiled lines s p hs (some line) (some times) k small h =
    subst (IsFiled (flush (scan_lines lines (hit line times s))) p)
      (append_assoc hs ((line, times) ∷ []) (hits_until lines))
      (k (hit line times s) (hs ++ ((line, times) ∷ [])) small (hit-IsCounting line times s p hs h))

da-IsFiled :
    (lines : List Bytes) (s : Scan) (p : Bytes) (hs : List Hit) (o : Option (Bytes × Bytes))
    → Continues lines s p hs
    → IsSmall s (names lines)
    → IsCounting s p hs
    → IsFiled
        (flush (scan_lines lines (da_line o s)))
        p
        (hs ++ with_hit (hit_in o) (hits_until lines))
da-IsFiled lines s p hs none k small h = k s hs small h
da-IsFiled lines s p hs (some o) k small h =
    parsed-IsFiled lines s p hs (atoi o.0) (atoi o.1) k small h

-- While few files come the loop is not left.
scan_small :
    (line : Bytes) (lines : List Bytes) (s : Scan)
    → IsSmall s (names (line ∷ lines))
    → scan_lines (line ∷ lines) s ≡ scan_lines lines (scan_line line s)
scan_small line lines s h = let small = (scan_line-IsSmall line lines s h).0 in rw small refl

named_next :
    (line : Bytes) (lines : List Bytes) (s : Scan)
    → has_prefix line sf ≡ true
    → IsSmall s (drop 3 line ∷ names lines)
    → scan_line line s ≡ begin (drop 3 line) ((flush s).file_count + 1) (flush s)
named_next line lines s e h =
    rw e
      (next_file-IsSmall (drop 3 line) (flush s) (names lines)
        (flush-IsSmall s (drop 3 line ∷ names lines) h)).1

counting_on :
    (p : Bytes)
    → is_empty p ≡ false
    → (lines : List Bytes) → IsAbsent p lines
    → (s : Scan) (hs : List Hit) → IsSmall s (names lines)
    → IsCounting s p hs
    → IsFiled (flush (scan_lines lines s)) p (hs ++ hits_until lines)
counting_on p ne [] d s hs small h =
    subst (IsFiled (flush s) p) (sym (append-nil hs)) (counting-IsFiled s p hs ne h)
counting_on p ne (line ∷ lines) d s hs small h =
    let next = scan_small line lines s small in
    subst (λ t. IsFiled (flush t) p (hs ++ hits_until (line ∷ lines))) (sym next)
      (elim (Bool-cases (has_prefix line sf)) [
        | inl e ↦
            let small' : IsSmall s (drop 3 line ∷ names lines) = rw e at small in
            let d' : All (λ q. bytes_eq q p ≡ false) (drop 3 line ∷ names lines) = rw e at d in
            let start = named_next line lines s e small' in
            subst (λ t. IsFiled (flush (scan_lines lines t)) p (hs ++ hits_until (line ∷ lines)))
              (sym start)
              (rw e (
                ended-IsFiled (drop 3 line) ((flush s).file_count + 1) lines s p hs ne
                  (other_name (drop 3 line) p d'.0) d'.1 h))
        | inr e ↦
            let d' : IsAbsent p lines = rw e at d in
            let small' : IsSmall s (names lines) = rw e at small in
            elim (Bool-cases (has_prefix line da)) [
              | inl f ↦
                  rw (e, f)
                    (da-IsFiled lines s p hs (cut (drop 3 line))
                      (λ t gs small'' k. counting_on p ne lines d' t gs small'' k) small' h)
              | inr f ↦ elim (Bool-cases (bytes_eq line end_of_record)) [
                | inl g ↦ rw (e, f, g) (ended-IsFiled [] s.file_count lines s p hs ne refl d' h)
                | inr g ↦ rw (e, f, g) (counting_on p ne lines d' s hs small' h)
              ]
            ]
      ])

bytes_eq_flip : (a b : Bytes) → bytes_eq a b ≡ false → bytes_eq b a ≡ false
bytes_eq_flip a b h = elim (Bool-cases (bytes_eq b a)) [
  | inl e ↦
      let same : bytes_eq a a ≡ false = subst (λ x. bytes_eq a x ≡ false) (bytes_eq→eq b a e) h in
      let true_false : true ≡ false = sym (bytes_eq_refl a) ∙ same in cc
  | inr e ↦ e
]

abbrev IsFresh : Scan → Bytes → Type 0
IsFresh s p = (uncovered_of s.uncovered_lines p ≡ []) × (is_current s p ≡ false)

-- The record of the line that names it.
named-IsFiled :
    (line : Bytes) (lines : List Bytes) (s : Scan) (p : Bytes)
    → is_empty p ≡ false
    → has_prefix line sf ≡ true
    → p ≡ drop 3 line
    → IsDistinct (drop 3 line ∷ names lines)
    → IsSmall s (drop 3 line ∷ names lines)
    → IsFresh s p
    → IsSmall (scan_line line s) (names lines)
    → IsFiled (flush (scan_lines lines (scan_line line s))) p (hits_until lines)
named-IsFiled line lines s p ne e same d small fresh small' =
    let start = named_next line lines s e small in
    let absent : IsAbsent p lines =
      All-imp (λ q. bytes_eq (drop 3 line) q ≡ false) (λ q. bytes_eq q p ≡ false) (names lines)
        (λ q h. bytes_eq_flip p q (subst (λ x. bytes_eq x q ≡ false) (sym same) h)) d.0 in
    counting_on p ne lines absent (scan_line line s) [] small' (
      subst (λ t. IsCounting t p []) (sym start)
        (record {
          file = sym same;
          covered = refl;
          total = refl;
          uncovered = refl;
          fresh = uncovered-flush s p fresh.1 ∙ fresh.0;
        }))

rewritten :
    (t : Scan) (p : Bytes) {hs gs : List Hit}
    → hs ≡ gs
    → IsFiled (flush t) p hs
    → IsFiled (flush t) p gs
rewritten t p e h = subst (IsFiled (flush t) p) e h

record-IsFiled :
    (p : Bytes)
    → is_empty p ≡ false
    → (lines : List Bytes) (s : Scan) → IsDistinct (names lines)
    → Keeps s (names lines)
    → IsSmall s (names lines)
    → In p (names lines)
    → IsFiled (flush (scan_lines lines s)) p (hits_of p lines)
record-IsFiled p ne [] s d k small m = elim m [ ]
record-IsFiled p ne (line ∷ lines) s d k small m =
    let next = scan_small line lines s small in
    let small' = scan_line-IsSmall line lines s small in
    let k' = scan_line-Keeps line lines s d k in
    let later =
      record-IsFiled p ne lines (scan_line line s) (tail-IsDistinct line lines d) k' small' in
    subst (λ t. IsFiled (flush t) p (hits_of p (line ∷ lines))) (sym next)
      (elim (Bool-cases (has_prefix line sf)) [
        | inl e ↦
            let d' : IsDistinct (drop 3 line ∷ names lines) = rw e at d in
            let small'' : IsSmall s (drop 3 line ∷ names lines) = rw e at small in
            let m' : In p (drop 3 line ∷ names lines) = rw e at m in
            let fresh : IsFresh s p = All-In (IsFresh s) (names (line ∷ lines)) k.fresh m in
            elim m' [
              | inl same ↦
                  let found : bytes_eq (drop 3 line) p ≡ true =
                    ap (λ x. bytes_eq (drop 3 line) x) same ∙ bytes_eq_refl (drop 3 line) in
                  rewritten (scan_lines lines (scan_line line s)) p
                    (sym (
                      ap (λ b. if b then hits_until lines else hits_of p lines)
                        (ap (λ b. b && bytes_eq (drop 3 line) p) e ∙ found)))
                    (named-IsFiled line lines s p ne e same d' small'' fresh small')
              | inr i ↦
                  let other = All-In (λ q. bytes_eq (drop 3 line) q ≡ false) (names lines) d'.0 i in
                  rewritten (scan_lines lines (scan_line line s)) p
                    (sym (
                      ap (λ b. if b then hits_until lines else hits_of p lines)
                        (ap (λ b. b && bytes_eq (drop 3 line) p) e ∙ other)))
                    (later i)
            ]
        | inr e ↦
            let m' : In p (names lines) = rw e at m in
            rewritten (scan_lines lines (scan_line line s)) p
              (sym (
                ap (λ b. if b then hits_until lines else hits_of p lines)
                  (ap (λ b. b && bytes_eq (drop 3 line) p) e)))
              (later m')
      ])

-- Of at most 500 records of different files each that has a name is filed with its own hits.
pub scanned-IsFiled :
    (p : Bytes) (lines : List Bytes)
    → is_empty p ≡ false
    → IsDistinct (names lines)
    → length (names lines) ≤ max_files_to_parse
    → In p (names lines)
    → IsFiled (flush (scan_lines lines new_scan)) p (hits_of p lines)
scanned-IsFiled p lines ne d few m =
    record-IsFiled p ne lines new_scan d (new_scan-Keeps (names lines)) (refl, omega (arith, few)) m

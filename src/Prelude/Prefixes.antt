-- ===== src/Prelude/Prefixes.antt =====
-- What the tests on texts decide, as equations between texts.
use shipmates_oss.Prelude.{
  ◌≡◌, refl, true, [], ◌∷◌, ◌++◌, length, drop, ◌==◌, ==_iff, arith, &&→both,
}
use shipmates_oss.Prelude.Bytes.{Bytes, bytes_eq, has_prefix}

pub has_prefix-append : (p s : Bytes) → has_prefix s p ≡ true → s ≡ p ++ drop (length p) s
has_prefix-append [] s h = refl
has_prefix-append (q ∷ p) [] h = cc
has_prefix-append (q ∷ p) (c ∷ s) h =
    let same : c ≡ q = (==_iff c q).0 (ground arith) in
    let rest = has_prefix-append p s (ground arith) in cc

pub append-has_prefix : (p s : Bytes) → has_prefix (p ++ s) p ≡ true
append-has_prefix [] s = refl
append-has_prefix (q ∷ p) s =
    let same : (q == q) ≡ true = (==_iff q q).1 refl in rw (same, append-has_prefix p s)

pub bytes_eq_refl : (s : Bytes) → bytes_eq s s ≡ true
bytes_eq_refl [] = refl
bytes_eq_refl (c ∷ s) = rw ((==_iff c c).1 refl, bytes_eq_refl s)

pub bytes_eq→eq : (s t : Bytes) → bytes_eq s t ≡ true → s ≡ t
bytes_eq→eq [] [] h = refl
bytes_eq→eq [] (d ∷ t) h = cc
bytes_eq→eq (c ∷ s) [] h = cc
bytes_eq→eq (c ∷ s) (d ∷ t) h =
    let (one, two) = &&→both _ _ h in
    let head : c ≡ d = (==_iff c d).0 one in let tail = bytes_eq→eq s t two in cc

-- ===== src/TestGen/Scan/Maps.antt =====
-- Lookups in the maps of the loop of ParseLcov (test-gen/testgen/coverage.go).
use shipmates_oss.Prelude.{
  ◌≡◌, refl, sym, ◌∙◌, subst, inl, inr, true, false, List, [], ◌∷◌, if◌then◌else◌, Bool-cases, All,
}
use shipmates_oss.Prelude.Bytes.{Bytes, bytes_eq}
use shipmates_oss.Prelude.Prefixes.{bytes_eq→eq}
use shipmates_oss.Prelude.Int.{ℤ}
use shipmates_oss.TestGen.Scan.{PathMap, set_path, uncovered_of, is_empty}

set_same :
    (c : Bytes) (v : List ℤ) (e : Bytes × List ℤ) (l : List ℤ) (k : Bytes)
    → c ≡ e.0
    → (if bytes_eq c k then v else l)
      ≡ (if bytes_eq c k then v else (if bytes_eq e.0 k then e.1 else l))
set_same c v e l k q = elim (Bool-cases (bytes_eq c k)) [
  | inl t ↦ rw t refl
  | inr t ↦ rw (sym q, t) refl
]

set_other :
    (c : Bytes) (v : List ℤ) (e : Bytes × List ℤ) (l : List ℤ) (k : Bytes)
    → bytes_eq c e.0 ≡ false
    → (if bytes_eq e.0 k then e.1 else (if bytes_eq c k then v else l))
      ≡ (if bytes_eq c k then v else (if bytes_eq e.0 k then e.1 else l))
set_other c v e l k q = elim (Bool-cases (bytes_eq e.0 k)) [
  | inl t ↦
      let q' : bytes_eq c k ≡ false = subst (λ x. bytes_eq c x ≡ false) (bytes_eq→eq e.0 k t) q in
      rw (t, q') refl
  | inr t ↦ rw t refl
]

pub uncovered_of-set_path :
    (c : Bytes) (v : List ℤ) (m : PathMap (List ℤ)) (k : Bytes)
    → uncovered_of (set_path c v m) k ≡ (if bytes_eq c k then v else uncovered_of m k)
uncovered_of-set_path c v [] k = refl
uncovered_of-set_path c v (e ∷ m) k =
    let ih = uncovered_of-set_path c v m k in
    elim (Bool-cases (bytes_eq c e.0)) [
      | inl q ↦ rw q (ih ∙ set_same c v e _ k (bytes_eq→eq c e.0 q))
      | inr q ↦ rw (q, ih) (set_other c v e _ k q)
    ]

pub uncovered_of-file :
    (c : Bytes) (v : List ℤ) (u : PathMap (List ℤ)) (k : Bytes)
    → (is_empty v ≡ true → uncovered_of u c ≡ [])
    → uncovered_of (if is_empty v then u else set_path c v u) k
      ≡ (if bytes_eq c k then v else uncovered_of u k)
uncovered_of-file c [] u k h = elim (Bool-cases (bytes_eq c k)) [
  | inl q ↦ rw q (subst (λ x. uncovered_of u x ≡ []) (bytes_eq→eq c k q) (h refl))
  | inr q ↦ rw q refl
]
uncovered_of-file c (x ∷ xs) u k h = uncovered_of-set_path c (x ∷ xs) u k

pub All-set_path :
    {V : Type 0} {P Q : Bytes × V → Type 0} (c : Bytes) (v : V) (m : PathMap V)
    → All P m
    → ((e : Bytes × V) → bytes_eq c e.0 ≡ false → P e → Q e)
    → Q (c, v)
    → All Q (set_path c v m)
All-set_path c v [] h f q = (q, tt)
All-set_path c v (e ∷ m) h f q = elim (Bool-cases (bytes_eq c e.0)) [
  | inl t ↦ rw t (All-set_path c v m h.1 f q)
  | inr t ↦ rw t (f e t h.0, All-set_path c v m h.1 f q)
]

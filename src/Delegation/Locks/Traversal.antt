-- ===== src/Delegation/Locks/Traversal.antt =====
-- What hasPathTraversal refuses (bot/delegation/locks.go).
use Prim.Native.String.{String}
use shipmates_oss.Prelude.{
  ℕ, ◌≡◌, inl, inr, refl, Bool, true, ◌||◌, List, [], ◌∷◌, arith, ◌==◌, if◌then◌else◌, exists,
  Bool-cases,
}
use shipmates_oss.Prelude.Bytes.{codes, has_prefix, contains, onto_first}
use shipmates_oss.Delegation.Locks.Paths.{
  split_slash, normalize, is_dot_dot, traverses, has_path_traversal,
}

abbrev later : List (List ℕ) → List (List ℕ)
later [] = []
later (s ∷ ss) = ss

exists-later :
    (ss : List (List ℕ)) → exists is_dot_dot (later ss) ≡ true → exists is_dot_dot ss ≡ true
exists-later [] h = h
exists-later (s ∷ ss) h = rw h (ground arith)

later-onto_first : (c : ℕ) (ss : List (List ℕ)) → later (onto_first c ss) ≡ later ss
later-onto_first c [] = refl
later-onto_first c (s ∷ ss) = refl

-- A leading `../` is a segment `..`.
dot_dot_prefix :
    (s : List ℕ)
    → has_prefix s (b'.' ∷ b'.' ∷ b'/' ∷ []) ≡ true
    → exists is_dot_dot (split_slash s) ≡ true
dot_dot_prefix [] h = cc
dot_dot_prefix (a ∷ []) h = ground arith
dot_dot_prefix (a ∷ b ∷ []) h = ground arith
dot_dot_prefix (a ∷ b ∷ c ∷ s) h = ground arith

-- `/../` inside is a segment `..` after the first.
dot_dot_inside :
    (s : List ℕ)
    → contains s (b'/' ∷ b'.' ∷ b'.' ∷ b'/' ∷ []) ≡ true
    → exists is_dot_dot (later (split_slash s)) ≡ true
dot_dot_inside [] h = cc
dot_dot_inside (c ∷ s) h = elim (Bool-cases (c == b'/')) [
  | inl e ↦ rw e (elim (Bool-cases (has_prefix s (b'.' ∷ b'.' ∷ b'/' ∷ []))) [
    | inl p ↦ dot_dot_prefix s p
    | inr p ↦ exists-later (split_slash s) (dot_dot_inside s (rw (e, p) at h))
  ])
  | inr e ↦ rw (e, later-onto_first c (split_slash s)) (dot_dot_inside s (rw e at h))
]

dot_dot_either :
    (s : List ℕ)
    → (has_prefix s (b'.' ∷ b'.' ∷ b'/' ∷ []) || contains s (b'/' ∷ b'.' ∷ b'.' ∷ b'/' ∷ [])) ≡ true
    → exists is_dot_dot (split_slash s) ≡ true
dot_dot_either s h = elim (Bool-cases (has_prefix s (b'.' ∷ b'.' ∷ b'/' ∷ []))) [
  | inl p ↦ dot_dot_prefix s p
  | inr p ↦ exists-later (split_slash s) (dot_dot_inside s (rw p at h))
]

ladder :
    (nul absolute extra segment : Bool)
    → (extra ≡ true → segment ≡ true)
    → (if nul then true else if absolute then true else if extra then true else segment)
      ≡ (nul || (absolute || segment))
ladder nul absolute extra segment h = ground arith

-- The same of a path whose `\` are read as `/` already.
pub traverses_exact :
    (s : List ℕ)
    → traverses s
      ≡ (contains s (0 ∷ []) || (has_prefix s (b'/' ∷ []) || exists is_dot_dot (split_slash s)))
unfolding traverses
traverses_exact s = ladder _ _ _ _ (dot_dot_either s)

-- A path is refused exactly when, with `\` read as `/`, it holds a NUL, starts with `/`, or has a segment
-- `..`: the tests on `../` and `/../` refuse nothing more.
pub has_path_traversal_exact :
    (path : String)
    → has_path_traversal path ≡ (
        contains (normalize (codes path)) (0 ∷ [])
        || (has_prefix (normalize (codes path)) (b'/' ∷ [])
            || exists is_dot_dot (split_slash (normalize (codes path)))))
unfolding has_path_traversal
has_path_traversal_exact path = traverses_exact (normalize (codes path))

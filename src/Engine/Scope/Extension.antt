-- ===== src/Engine/Scope/Extension.antt =====
-- The extension of a file's name: what stands after its last dot.
use shipmates_oss.Prelude.{
  ℕ, ◌≤◌, ◌≡◌, refl, ap, ◌∙◌, ◌⊎◌, inl, inr, true, false, List, [], ◌∷◌, ◌++◌, exists, length, ltb,
  ◌==◌, Bool-cases, ==_iff, arith,
}
use shipmates_oss.Prelude.Bytes.{Bytes, onto_first, split_on}
use shipmates_oss.Engine.Scope.{last_part}

abbrev pub NoByte : ℕ → Bytes → Type 0
NoByte b s = exists (λ c. c == b) s ≡ false

split_without : (b : ℕ) (s : Bytes) → NoByte b s → split_on b s ≡ s ∷ []
split_without b [] h = refl
split_without b (c ∷ s) h = elim (Bool-cases (c == b)) [
  | inl e ↦ let h' : true ≡ false = rw e at h in cc
  | inr e ↦ rw (e, split_without b s (rw e at h))
]

record Ends (parts : List Bytes) (tail : Bytes) : Type 0 where
  several : 2 ≤ length parts
  ends : last_part parts ≡ tail

onto_first-Ends :
    (c : ℕ) (parts : List Bytes) (tail : Bytes) → Ends parts tail → Ends (onto_first c parts) tail
onto_first-Ends c [] tail h = let l = h.several in absurd (omega arith)
onto_first-Ends c (s ∷ []) tail h = let l = h.several in absurd (omega arith)
onto_first-Ends c (s ∷ t ∷ ts) tail h = record { several = h.several; ends = h.ends }

onto-Ends : (parts : List Bytes) (tail : Bytes) → Ends parts tail → Ends ([] ∷ parts) tail
onto-Ends [] tail h = let l = h.several in absurd (omega arith)
onto-Ends (s ∷ ts) tail h = let l = h.several in record { several = omega arith; ends = h.ends }

split-Ends :
    (b : ℕ) (stem tail : Bytes) → NoByte b tail → Ends (split_on b (stem ++ (b ∷ tail))) tail
split-Ends b [] tail h =
    let same : (b == b) ≡ true = (==_iff b b).1 refl in
    rw (same, split_without b tail h) (record { several = omega arith; ends = refl })
split-Ends b (c ∷ stem) tail h = elim (Bool-cases (c == b)) [
  | inl e ↦ rw e (onto-Ends _ tail (split-Ends b stem tail h))
  | inr e ↦ rw e (onto_first-Ends c _ tail (split-Ends b stem tail h))
]

abbrev pub CutAt : ℕ → Bytes → Type 0
CutAt b s = (stem : Bytes) × (tail : Bytes) × (s ≡ stem ++ (b ∷ tail)) × NoByte b tail

last_cut : (b : ℕ) (s : Bytes) → NoByte b s ⊎ CutAt b s
last_cut b [] = inl refl
last_cut b (c ∷ s) = elim (last_cut b s) [
  | inr (stem, tail, e, free) ↦ inr (c ∷ stem, tail, ap (λ t. c ∷ t) e, free)
  | inl free ↦ elim (Bool-cases (c == b)) [
    | inl e ↦ inr ([], s, ap (λ d. d ∷ s) ((==_iff c b).0 e), free)
    | inr e ↦ inl (rw (e, free))
  ]
]

-- Cut at its last dot, a name has at least two parts, the last of which is its extension.
pub parts_of_cut :
    (b : ℕ) (stem tail : Bytes)
    → NoByte b tail
    → (ltb (length (split_on b (stem ++ (b ∷ tail)))) 2 ≡ false)
      × (last_part (split_on b (stem ++ (b ∷ tail))) ≡ tail)
parts_of_cut b stem tail h =
    let p = split-Ends b stem tail h in let l = p.several in (ground arith, p.ends)

-- A name of two parts is cut.
pub cut_of_parts :
    (b : ℕ) (s : Bytes)
    → ltb (length (split_on b s)) 2 ≡ false
    → (stem : Bytes) × (s ≡ stem ++ (b ∷ last_part (split_on b s)))
      × NoByte b (last_part (split_on b s))
cut_of_parts b s h = elim (last_cut b s) [
  | inl free ↦ let h' : ltb 1 2 ≡ false = rw (split_without b s free) at h in cc
  | inr (stem, tail, e, free) ↦
      let ends : last_part (split_on b s) ≡ tail =
        ap (λ t. last_part (split_on b t)) e ∙ (split-Ends b stem tail free).ends in
      (stem, rw ends e, rw ends free)
]

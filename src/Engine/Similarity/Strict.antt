-- ===== src/Engine/Similarity/Strict.antt =====
-- What LevenshteinRatio returns for two texts that differ.
use shipmates_oss.Prelude.{
  ℕ, suc, ◌+◌, ◌-◌, ◌*◌, ◌≤◌, ◌<◌, ◌≡◌, refl, inl, inr, Bool, true, false, ◌||◌, List, [], ◌∷◌,
  ◌==◌, if◌then◌else◌, length, Bool-cases, arith,
}
use shipmates_oss.Prelude.Bytes.{Bytes, bytes_eq}
use shipmates_oss.Engine.Similarity.{
  Floats, is_hopeless, rows, next_row, levenshtein_ratio, max_len, min_possible_distance, up_from,
}

-- The distance is at least half of the longer length.
far : (m n : ℕ) → 0 < m → 0 < n → 1 < m + n - 1 → max_len m n ≤ 2 * min_possible_distance m n 1
far m n hm hn h = ground arith

nonzero : (n : ℕ) → (suc n == 0) ≡ false
nonzero n = ground arith

or_true : (b : Bool) → (b || true) ≡ true
or_true true = refl
or_true false = refl

module _ (f : Floats) (threshold : f.Float)
    (below : (d n : ℕ) → n ≤ 2 * d → 0 < n → f.less (f.closeness d n) threshold ≡ true) where
  hopeless_long :
      (m n : ℕ) (curr : List ℕ)
      → 0 < m
      → 0 < n
      → 1 < m + n - 1
      → is_hopeless f m n 1 threshold curr ≡ true
  hopeless_long m n curr hm hn h =
      let low =
        below (min_possible_distance m n 1) (max_len m n) (far m n hm hn h) (ground arith) in
      rw low (ground arith)

  -- Two texts of one byte each.
  hopeless_short :
      (a b : ℕ)
      → (a == b) ≡ false
      → is_hopeless f 1 1 1 threshold (next_row a 1 (0 ∷ 1 ∷ []) (b ∷ [])) ≡ true
  unfolding next_row
  hopeless_short a b ne = rw ne

  differing :
      (as' bs : Bytes) → bytes_eq as' bs ≡ false → levenshtein_ratio f as' bs threshold ≡ f.zero
  unfolding levenshtein_ratio rows
  differing [] bs ne = rw ne
  differing (a ∷ as') [] ne = rw (or_true (suc (length as') == 0))
  differing (a ∷ []) (b ∷ []) ne = rw (ne, hopeless_short a b (ground arith))
  differing (a ∷ []) (b ∷ b' ∷ bs) ne = rw (
    ne,
    nonzero (suc (length bs)),
    hopeless_long 1 (length (b ∷ b' ∷ bs))
        (next_row a 1 (up_from 0 (length (b ∷ b' ∷ bs))) (b ∷ b' ∷ bs)) (omega arith) (omega arith)
        (omega arith),
  )
  differing (a ∷ a' ∷ as') (b ∷ bs) ne = rw (
    ne,
    nonzero (suc (length as')),
    nonzero (length bs),
    hopeless_long (length (a ∷ a' ∷ as')) (length (b ∷ bs))
        (next_row a 1 (up_from 0 (length (b ∷ bs))) (b ∷ bs)) (omega arith) (omega arith)
        (omega arith),
  )

  -- Where a distance of at least half of the longer length falls below the threshold, which is so at the 0.85
  -- that FindMatch passes, LevenshteinRatio is a test of equality: 1 for equal texts, and 0 for any two
  -- that differ, be it in one byte of a thousand.
  pub levenshtein_ratio_strict :
      (as' bs : Bytes)
      → levenshtein_ratio f as' bs threshold ≡ (if bytes_eq as' bs then f.one else f.zero)
  levenshtein_ratio_strict as' bs = elim (Bool-cases (bytes_eq as' bs)) [
    | inl same ↦ rw same (equal as' bs same)
    | inr ne ↦ rw ne (differing as' bs ne)
  ]
    where
      equal :
          (as' bs : Bytes) → bytes_eq as' bs ≡ true → levenshtein_ratio f as' bs threshold ≡ f.one
      equal as' bs same = unfold levenshtein_ratio in rw same

-- ===== src/Engine/Similarity.antt =====
-- LevenshteinRatio of bot/orchestrator/engine/apply.go.
pub mod Strict
use shipmates_oss.Prelude.{
  ℕ, zero, suc, ◌+◌, ◌-◌, ◌*◌, ◌/◌, Bool, true, false, not, ◌||◌, Option, none, some, List, [], ◌∷◌,
  ltb, leb, ◌==◌, if◌then◌else◌, length,
}
use shipmates_oss.Prelude.Bytes.{Bytes, bytes_eq}

-- float64, as this file computes with it.
pub record Floats : Type 1 where
  pub Float : Type 0
  pub zero : Float
  pub one : Float
  pub half : Float
  -- FUZZY_THRESHOLD
  pub fuzzy_threshold : Float
  -- 1.0 - float64(d)/float64(n)
  pub closeness : ℕ → ℕ → Float
  -- float64(k)/float64(n)
  pub share : ℕ → ℕ → Float
  pub add : Float → Float → Float
  -- x / float64(n)
  pub over : Float → ℕ → Float
  pub less : Float → Float → Bool

abbrev pub lower : ℕ → ℕ → ℕ
lower x y = if ltb x y then x else y

-- curr[j], from prev[j-1], prev[j] and curr[j-1]
abbrev pub cell : ℕ → ℕ → ℕ → ℕ → ℕ → ℕ
cell a b diagonal above left = if a == b then diagonal else 1 + lower left (lower above diagonal)

-- curr[j..] for the bytes of b that are left
unfoldable pub fill : ℕ → ℕ → ℕ → List ℕ → Bytes → List ℕ
fill a diagonal left [] bs = []
fill a diagonal left (above ∷ rest) [] = []
fill a diagonal left (above ∷ rest) (b ∷ bs) =
    let x = cell a b diagonal above left in x ∷ fill a above x rest bs

unfoldable pub next_row : ℕ → ℕ → List ℕ → Bytes → List ℕ
unfolding fill
next_row a i [] bs = i ∷ []
next_row a i (p ∷ ps) bs = i ∷ fill a p i ps bs

-- rowMin
abbrev pub row_min : ℕ → List ℕ → ℕ
row_min least [] = least
row_min least (x ∷ xs) = row_min (lower x least) xs

abbrev pub distance_between : ℕ → ℕ → ℕ
distance_between m n = if ltb n m then m - n else n - m

abbrev pub min_possible_distance : ℕ → ℕ → ℕ → ℕ
min_possible_distance m n i = distance_between m n + (if ltb i m then m - i else 0)

abbrev pub max_len : ℕ → ℕ → ℕ
max_len m n = if ltb m n then n else m

abbrev pub last_of : ℕ → List ℕ → ℕ
last_of x [] = x
last_of x (y ∷ ys) = last_of y ys

-- 0, 1, …, n
abbrev pub up_from : ℕ → ℕ → List ℕ
up_from i zero = i ∷ []
up_from i (suc n) = i ∷ up_from (i + 1) n

module _ (f : Floats) where
  open f use {Float, closeness, less}

  abbrev pub is_hopeless : ℕ → ℕ → ℕ → Float → List ℕ → Bool
  is_hopeless m n i threshold curr =
      ltb (max_len m n * 15 / 100) (row_min i curr)
      || less (closeness (min_possible_distance m n i) (max_len m n)) threshold

  -- The loop over the bytes of a; m and n are the lengths of both texts.
  unfoldable pub rows : ℕ → ℕ → ℕ → Float → Bytes → Bytes → List ℕ → Float
  unfolding next_row
  rows m n i threshold [] bs prev = closeness (last_of 0 prev) (max_len m n)
  rows m n i threshold (a ∷ as') bs prev =
      let curr = next_row a i prev bs in
      let rest = rows m n (i + 1) threshold as' bs curr in
      if is_hopeless m n i threshold curr then f.zero else rest

  unfoldable pub levenshtein_ratio : Bytes → Bytes → Float → Float
  unfolding rows
  levenshtein_ratio as' bs threshold =
      if bytes_eq as' bs
      then f.one
      else if (length as' == 0) || (length bs == 0)
      then f.zero
      else rows (length as') (length bs) 1 threshold as' bs (up_from 0 (length bs))

-- ===== src/TestGen/Atoi.antt =====
-- Go's `int`, which has 64 bits, as test-gen/testgen/coverage.go uses it: strconv.Atoi, sort.Ints and `end + 1`.
use shipmates_oss.Prelude.{
  ℕ, zero, suc, ◌+◌, ◌-◌, ◌*◌, Bool, ◌&&◌, Option, none, some, List, [], ◌∷◌, leb, ◌==◌,
  if◌then◌else◌,
}
use shipmates_oss.Prelude.Bytes.{Bytes}
use shipmates_oss.Prelude.Int.{ℤ, pos, negsuc, pos_part, neg_part, leb_ℤ}

abbrev max_int : ℕ
max_int = 9223372036854775807

abbrev pub digits : ℕ → Bytes → Option ℕ
digits n [] = some n
digits n (c ∷ s) =
    let rest = digits (n * 10 + (c - b'0')) s in if leb b'0' c && leb c b'9' then rest else none

abbrev pub magnitude : Bytes → Option ℕ
magnitude [] = none
magnitude (c ∷ s) = digits 0 (c ∷ s)

abbrev pub positive : Option ℕ → Option ℤ
positive none = none
positive (some n) = if leb n max_int then some (pos n) else none

abbrev pub negative : Option ℕ → Option ℤ
negative none = none
negative (some zero) = some (pos 0)
negative (some (suc n)) = if leb n max_int then some (negsuc n) else none

-- strconv.Atoi; an error is none
abbrev pub atoi : Bytes → Option ℤ
atoi [] = none
atoi (c ∷ s) =
    if c == b'-'
    then negative (magnitude s)
    else (if c == b'+' then positive (magnitude s) else positive (magnitude (c ∷ s)))

-- `a + 1`, which wraps around.
abbrev pub inc : ℤ → ℤ
inc (pos n) = if n == max_int then negsuc max_int else pos (suc n)
inc (negsuc zero) = pos 0
inc (negsuc (suc n)) = negsuc n

abbrev pub eq_ℤ : ℤ → ℤ → Bool
eq_ℤ a b = pos_part a == pos_part b && neg_part a == neg_part b

abbrev pub insert : ℤ → List ℤ → List ℤ
insert x [] = x ∷ []
insert x (y ∷ ys) = let rest = insert x ys in if leb_ℤ x y then x ∷ y ∷ ys else y ∷ rest

-- sort.Ints
abbrev pub ints : List ℤ → List ℤ
ints [] = []
ints (x ∷ xs) = insert x (ints xs)

-- ===== src/TestGen/Ranges/Lines.antt =====
-- The lines that CollapseLineRanges (test-gen/testgen/coverage.go) puts into ranges.
use shipmates_oss.Prelude.{
  ℕ, zero, suc, ◌+◌, ◌-◌, ◌≡◌, refl, sym, ap, ◌∙◌, inl, inr, true, List, [], ◌∷◌, ◌++◌, append-nil,
  append_assoc, Bool-cases, arith,
}
use shipmates_oss.Prelude.Int.{ℤ, pos, negsuc, pos_part, neg_part, sub_ℕ, leb_ℤ, ◌≤ℤ◌}
use shipmates_oss.TestGen.Atoi.{inc, eq_ℤ, insert, ints}
use shipmates_oss.TestGen.Ranges.{
  LineRange, Collapse, one_line, advance, collapse, collapse_sorted, collapse_line_ranges,
}

abbrev pub after : ℤ → ℕ → ℤ
after a n = sub_ℕ (pos_part a + n) (neg_part a)

-- The n lines from a line on.
abbrev pub lines_from : ℤ → ℕ → List ℤ
lines_from a zero = []
lines_from a (suc n) = lines_from a n ++ (after a n ∷ [])

-- How many lines a range has.
abbrev pub size : LineRange → ℕ
size r = suc (pos_part r.finish + neg_part r.start) - (neg_part r.finish + pos_part r.start)

-- The lines of ranges, with both ends.
abbrev pub lines_of : List LineRange → List ℤ
lines_of [] = []
lines_of (r ∷ rs) = lines_from r.start (size r) ++ lines_of rs

abbrev Ascend : ℤ → List ℤ → Type 0
Ascend a [] = Unit
Ascend a (x ∷ xs) = (a ≤ℤ x) × Ascend x xs

insert-Ascend : (a x : ℤ) (ys : List ℤ) → a ≤ℤ x → Ascend a ys → Ascend a (insert x ys)
insert-Ascend a x [] h k = (h, tt)
insert-Ascend a x (y ∷ ys) h k = elim (Bool-cases (leb_ℤ x y)) [
  | inl e ↦ rw e (h, (ground arith, k.1))
  | inr e ↦ rw e (k.0, insert-Ascend y x ys (ground arith) k.1)
]

-- Also where the list starts with its least number.
abbrev IsAscending : List ℤ → Type 0
IsAscending [] = Unit
IsAscending (x ∷ xs) = Ascend x xs

insert-IsAscending : (x : ℤ) (ys : List ℤ) → IsAscending ys → IsAscending (insert x ys)
insert-IsAscending x [] k = tt
insert-IsAscending x (y ∷ ys) k = elim (Bool-cases (leb_ℤ x y)) [
  | inl e ↦ rw e (ground arith, k)
  | inr e ↦ rw e (insert-Ascend y x ys (ground arith) k)
]

pub ints-IsAscending : (xs : List ℤ) → IsAscending (ints xs)
ints-IsAscending [] = tt
ints-IsAscending (x ∷ xs) = insert-IsAscending x (ints xs) (ints-IsAscending xs)

lines_of-append : (rs ss : List LineRange) → lines_of (rs ++ ss) ≡ lines_of rs ++ lines_of ss
lines_of-append [] ss = refl
lines_of-append (r ∷ rs) ss =
    ap (λ l. lines_from r.start (size r) ++ l) (lines_of-append rs ss)
    ∙ sym (append_assoc (lines_from r.start (size r)) (lines_of rs) (lines_of ss))

after_zero : (x : ℤ) → after x 0 ≡ x
after_zero (pos n) = ground arith
after_zero (negsuc n) = ground arith

size-one_line : (x : ℤ) → size (one_line x) ≡ 1
size-one_line x = omega arith

lines_of-one_line : (x : ℤ) → lines_of (one_line x ∷ []) ≡ x ∷ []
lines_of-one_line x = rw (size-one_line x, after_zero x) refl

-- A range with one line more.
longer_by_one :
    (a b x : ℤ)
    → a ≤ℤ b
    → b ≤ℤ x
    → eq_ℤ x (inc b) ≡ true
    → size (record { start = a; finish = x }) ≡ suc (size (record { start = a; finish = b }))
longer_by_one a b x h k e = ground arith

after-size :
    (a b x : ℤ)
    → a ≤ℤ b
    → b ≤ℤ x
    → eq_ℤ x (inc b) ≡ true
    → after a (size (record { start = a; finish = b })) ≡ x
after-size a b x h k e = ground arith

-- What the loop has set_path into ranges so far.
abbrev taken : Collapse → List ℤ
taken c = lines_of (c.ranges ++ (c.current ∷ []))

taken-advance :
    (c : Collapse) (x : ℤ)
    → c.current.start ≤ℤ c.current.finish
    → c.current.finish ≤ℤ x
    → taken (advance c x) ≡ taken c ++ (x ∷ [])
taken-advance c x h k = elim (Bool-cases (eq_ℤ x (inc c.current.finish))) [
  | inl e ↦
      let longer = longer_by_one c.current.start c.current.finish x h k e in
      let last = after-size c.current.start c.current.finish x h k e in
      rw
        (
          e,
          lines_of-append c.ranges (record { start = c.current.start; finish = x } ∷ []),
          lines_of-append c.ranges (c.current ∷ []),
          longer,
          last,
          append-nil _,
          append-nil _,
          append_assoc _ _ _,
        )
        refl
  | inr e ↦
      rw (e, lines_of-append (c.ranges ++ (c.current ∷ [])) (one_line x ∷ []), lines_of-one_line x)
        refl
]

advance_ordered :
    (c : Collapse) (x : ℤ)
    → c.current.start ≤ℤ c.current.finish
    → c.current.finish ≤ℤ x
    → ((advance c x).current.start ≤ℤ x) × ((advance c x).current.finish ≡ x)
advance_ordered c x h k = elim (Bool-cases (eq_ℤ x (inc c.current.finish))) [
  | inl e ↦ rw e (omega arith, refl)
  | inr e ↦ rw e (omega arith, refl)
]

lines_of-collapse :
    (c : Collapse) (xs : List ℤ)
    → c.current.start ≤ℤ c.current.finish
    → Ascend c.current.finish xs
    → lines_of (collapse c xs) ≡ taken c ++ xs
lines_of-collapse c [] h k = sym (append-nil (taken c))
lines_of-collapse c (x ∷ xs) h k =
    let (o, f) = advance_ordered c x h k.0 in
    lines_of-collapse (advance c x) xs (rw f o) (rw f k.1)
    ∙ ap (λ l. l ++ xs) (taken-advance c x h k.0)
    ∙ append_assoc (taken c) (x ∷ []) xs

lines_of-collapse_sorted : (xs : List ℤ) → IsAscending xs → lines_of (collapse_sorted xs) ≡ xs
lines_of-collapse_sorted [] k = refl
lines_of-collapse_sorted (x ∷ xs) k =
    lines_of-collapse (record { ranges = []; current = one_line x }) xs (omega arith) k
    ∙ ap (λ l. l ++ xs) (lines_of-one_line x)

-- The ranges that lines are set_path into have these lines, in order, and each as often as it is listed.
pub lines_of-collapse_line_ranges :
    (lines : List ℤ) → lines_of (collapse_line_ranges lines) ≡ ints lines
unfolding collapse_line_ranges
lines_of-collapse_line_ranges lines = lines_of-collapse_sorted (ints lines) (ints-IsAscending lines)

-- ===== src/TestGen/Ranges.antt =====
-- CollapseLineRanges of test-gen/testgen/coverage.go.
pub mod Lines
use shipmates_oss.Prelude.{List, [], ◌∷◌, ◌++◌, if◌then◌else◌}
use shipmates_oss.Prelude.Int.{ℤ}
use shipmates_oss.TestGen.Atoi.{inc, eq_ℤ, ints}

pub record LineRange : Type 0 where
  pub start : ℤ
  pub finish : ℤ

-- The variables of the loop.
pub record Collapse : Type 0 where
  pub ranges : List LineRange
  pub current : LineRange

abbrev pub one_line : ℤ → LineRange
one_line x = record { start = x; finish = x }

abbrev pub advance : Collapse → ℤ → Collapse
advance c x =
    if eq_ℤ x (inc c.current.finish)
    then record { ranges = c.ranges; current = record { start = c.current.start; finish = x } }
    else record { ranges = c.ranges ++ (c.current ∷ []); current = one_line x }

abbrev pub collapse : Collapse → List ℤ → List LineRange
collapse c [] = c.ranges ++ (c.current ∷ [])
collapse c (x ∷ xs) = collapse (advance c x) xs

abbrev pub collapse_sorted : List ℤ → List LineRange
collapse_sorted [] = []
collapse_sorted (x ∷ xs) = collapse (record { ranges = []; current = one_line x }) xs

unfoldable pub collapse_line_ranges : List ℤ → List LineRange
collapse_line_ranges lines = collapse_sorted (ints lines)

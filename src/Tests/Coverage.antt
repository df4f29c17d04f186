-- ===== src/Tests/Coverage.antt =====
-- Reports of coverage of two files. A percentage is a number that is rounded down.
use shipmates_oss.Prelude.{ℕ, ◌*◌, ◌/◌, ◌≡◌, refl, inr, false, none, some, List, [], ◌∷◌, All}
use shipmates_oss.Prelude.Bytes.{Bytes, codes}
use shipmates_oss.Prelude.Int.{ℤ, pos, negsuc}
use shipmates_oss.TestGen.Atoi.{atoi, ints}
use shipmates_oss.TestGen.Ranges.{LineRange, collapse_line_ranges}
use shipmates_oss.TestGen.Ranges.Lines.{lines_of, lines_of-collapse_line_ranges}
use shipmates_oss.TestGen.Lcov.{opened, CoverageReport, parse_lcov}
use shipmates_oss.TestGen.Lcov.Faithful.{IsFaithful, HasRecords, parse_lcov-IsFaithful}

negative_line : atoi (codes "-12") ≡ some (negsuc 11)
negative_line = refl

no_line : atoi (codes "1x") ≡ none
no_line = refl

too_long_line : atoi (codes "9223372036854775808") ≡ none
too_long_line = refl

abbrev some_lines : List ℤ
some_lines = pos 9 ∷ pos 3 ∷ pos 4 ∷ pos 3 ∷ pos 10 ∷ []

abbrev range : ℕ → ℕ → LineRange
range a b = record { start = pos a; finish = pos b }

-- A line that is listed twice is in two ranges.
collapsed : collapse_line_ranges some_lines ≡ range 3 3 ∷ range 3 4 ∷ range 9 10 ∷ []
unfolding collapse_line_ranges
collapsed = refl

lines_of-collapse_line_ranges_example : lines_of (collapse_line_ranges some_lines) ≡ ints some_lines
lines_of-collapse_line_ranges_example = lines_of-collapse_line_ranges some_lines

abbrev percent : ℕ → ℕ → ℕ
percent a b = a * 100 / b

abbrev two_records : List Bytes
two_records =
    codes "TN:"
    ∷ codes "SF:a"
    ∷ codes "DA:1,1"
    ∷ codes "DA:2,0"
    ∷ codes "DA:3,0"
    ∷ codes "DA:x,0"
    ∷ codes "end_of_record"
    ∷ codes "SF:b"
    ∷ codes "DA:5,2"
    ∷ []

two_files :
    parse_lcov 0 percent (opened 80 two_records (λ b. false))
    ≡ inr (record {
      total_coverage = 50;
      file_coverage =
          (
            codes "a",
            record {
              path = codes "a";
              lines_covered = 1;
              lines_total = 3;
              coverage_percent = 33;
              uncovered_line_ranges = range 2 3 ∷ [];
            },
          )
          ∷ (
            codes "b",
            record {
              path = codes "b";
              lines_covered = 1;
              lines_total = 1;
              coverage_percent = 100;
              uncovered_line_ranges = [];
            },
          )
          ∷ [];
      uncovered_lines = (codes "a", pos 2 ∷ pos 3 ∷ []) ∷ [];
    })
unfolding parse_lcov collapse_line_ranges
two_files = refl

parse_lcov-IsFaithful_example :
    (r : CoverageReport ℕ) × (parse_lcov 0 percent (opened 80 two_records (λ b. false)) ≡ inr r)
    × All (IsFaithful r.uncovered_lines) r.file_coverage
    × HasRecords two_records r
parse_lcov-IsFaithful_example =
    parse_lcov-IsFaithful 0 percent 80 two_records (λ b. false) refl (λ b. refl)
      ((refl, tt), (tt, tt))

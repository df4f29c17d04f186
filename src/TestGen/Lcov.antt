-- ===== src/TestGen/Lcov.antt =====
-- ParseLcov and CalculateTotalCoverage of test-gen/testgen/coverage.go.
pub mod Faithful
use shipmates_oss.Prelude.{
  ℕ, ◌+◌, Bool, List, [], ◌∷◌, map, ltb, ◌==◌, if◌then◌else◌, ◌⊎◌, inl, inr,
}
use shipmates_oss.Prelude.Bytes.{Bytes}
use shipmates_oss.Prelude.Int.{ℤ}
use shipmates_oss.TestGen.Ranges.{LineRange, collapse_line_ranges}
use shipmates_oss.TestGen.Scan.{
  PathMap, uncovered_of, has_path, Counted, Scan, flush, scan_lines, new_scan,
}

abbrev pub max_coverage_file_size : ℕ
max_coverage_file_size = 10485760

-- What os.Open, Stat and a Scanner tell of a file: its size, its lines, and whether the Scanner has an error, after
-- it was left by the break or at its end.
pub data CoverageFile : Type 0 where
  cannot_open : CoverageFile
  cannot_stat : CoverageFile
  opened : ℕ → List Bytes → (Bool → Bool) → CoverageFile

pub data CoverageError : Type 0 where
  open_lcov_file : CoverageError
  stat_lcov_file : CoverageError
  exceeds_max_size : CoverageError
  scan_lcov_file : CoverageError

pub record FileCoverageDetail (Float : Type 0) : Type 0 where
  pub path : Bytes
  pub lines_covered : ℕ
  pub lines_total : ℕ
  pub coverage_percent : Float
  pub uncovered_line_ranges : List LineRange

pub record CoverageReport (Float : Type 0) : Type 0 where
  pub total_coverage : Float
  pub file_coverage : PathMap (FileCoverageDetail Float)
  pub uncovered_lines : PathMap (List ℤ)

-- Machine floats: 0.0, and the quotient of two numbers times 100.0.
module _ {Float : Type 0} (float_zero : Float) (percent : ℕ → ℕ → Float) where
  abbrev pub detail_of : PathMap (List ℤ) → Bytes × Counted → Bytes × FileCoverageDetail Float
  detail_of uncovered e = (
    e.0,
    record {
      path = e.0;
      lines_covered = e.1.lines_covered;
      lines_total = e.1.lines_total;
      coverage_percent =
          if ltb 0 e.1.lines_total then percent e.1.lines_covered e.1.lines_total else float_zero;
      uncovered_line_ranges =
          if has_path uncovered e.0 then collapse_line_ranges (uncovered_of uncovered e.0) else [];
    },
  )

  abbrev pub total : (FileCoverageDetail Float → ℕ) → PathMap (FileCoverageDetail Float) → ℕ
  total f [] = 0
  total f (e ∷ m) = f e.1 + total f m

  abbrev pub calculate_total_coverage : PathMap (FileCoverageDetail Float) → Float
  calculate_total_coverage m =
      let covered = total (λ (d : FileCoverageDetail Float). d.lines_covered) m in
      let lines = total (λ (d : FileCoverageDetail Float). d.lines_total) m in
      if lines == 0 then float_zero else percent covered lines

  abbrev pub report_of : Scan → CoverageReport Float
  report_of s =
      let details = map (detail_of s.uncovered_lines) s.file_coverage in
      record {
        total_coverage = calculate_total_coverage details;
        file_coverage = details;
        uncovered_lines = s.uncovered_lines;
      }

  unfoldable pub parse_lcov : CoverageFile → CoverageError ⊎ CoverageReport Float
  parse_lcov cannot_open = inl open_lcov_file
  parse_lcov cannot_stat = inl stat_lcov_file
  parse_lcov (opened bytes lines fails) =
      let s = scan_lines lines new_scan in
      if ltb max_coverage_file_size bytes
      then inl exceeds_max_size
      else (if fails s.stopped then inl scan_lcov_file else inr (report_of (flush s)))

-- ===== src/TestGen/Lcov/Faithful.antt =====
-- What the report of ParseLcov (test-gen/testgen/coverage.go) says of each file.
use shipmates_oss.Prelude.{
  ℕ, ◌+◌, ◌≡◌, refl, ap, ◌||◌, inl, inr, ◌⊎◌, some, count, Bool, true, false, List, [], ◌∷◌, map,
  length, ltb, if◌then◌else◌, Bool-cases, All, All-map, All-imp, In-All, arith,
}
use shipmates_oss.Prelude.Bytes.{Bytes, bytes_eq}
use shipmates_oss.Prelude.Int.{ℤ}
use shipmates_oss.TestGen.Atoi.{ints}
use shipmates_oss.TestGen.Ranges.{collapse_line_ranges}
use shipmates_oss.TestGen.Ranges.Lines.{lines_of, lines_of-collapse_line_ranges}
use shipmates_oss.TestGen.Scan.{
  PathMap, is_empty, max_files_to_parse, uncovered_of, has_path, Counted, flush, scan_lines,
  new_scan,
}
use shipmates_oss.TestGen.Scan.Counts.{names, IsDistinct, IsCounted, scanned-Keeps}
use shipmates_oss.TestGen.Scan.Filed.{scanned-IsFiled}
use shipmates_oss.TestGen.Scan.Records.{Hit, hits_of, has_run, not_run, counted_of}
use shipmates_oss.TestGen.Lcov.{
  max_coverage_file_size, opened, FileCoverageDetail, CoverageReport, detail_of, report_of,
  parse_lcov,
}

-- The lines of a file that are covered and those that are not make up its total, and its ranges have those that are
-- not.
abbrev pub IsFaithful :
    {Float : Type 0} → PathMap (List ℤ) → Bytes × FileCoverageDetail Float → Type 0
IsFaithful u e =
    (e.1.lines_covered + length (uncovered_of u e.0) ≡ e.1.lines_total)
    × (lines_of e.1.uncovered_line_ranges ≡ ints (uncovered_of u e.0))

-- What a report has of a file is what these hits make: those that ran are covered, and the lines of the others are
-- listed.
pub record IsMadeOf {Float : Type 0} (hs : List Hit) (p : Bytes) (r : CoverageReport Float)
    : Type 0 where
  pub detail : FileCoverageDetail Float
  pub entry : counted_of r.file_coverage p ≡ some detail
  pub covered : detail.lines_covered ≡ count has_run hs
  pub total : detail.lines_total ≡ length hs
  pub uncovered : uncovered_of r.uncovered_lines p ≡ not_run hs

-- A report of at most 500 records has each file that they name, with the hits of its record.
abbrev pub HasRecords : {Float : Type 0} → List Bytes → CoverageReport Float → Type 0
HasRecords lines r =
    All
      (λ p.
        ((ltb max_files_to_parse (length (names lines)) || is_empty p) ≡ true)
        ⊎ IsMadeOf (hits_of p lines) p r)
      (names lines)

no_path : (u : PathMap (List ℤ)) (p : Bytes) → has_path u p ≡ false → uncovered_of u p ≡ []
no_path [] p h = refl
no_path (e ∷ u) p h = elim (Bool-cases (bytes_eq e.0 p)) [
  | inl q ↦ absurd (ground arith)
  | inr q ↦ rw q (no_path u p (rw q at h))
]

detail_ranges :
    (u : PathMap (List ℤ)) (p : Bytes)
    → lines_of (if has_path u p then collapse_line_ranges (uncovered_of u p) else [])
      ≡ ints (uncovered_of u p)
detail_ranges u p = elim (Bool-cases (has_path u p)) [
  | inl q ↦ rw q (lines_of-collapse_line_ranges (uncovered_of u p))
  | inr q ↦ rw (q, no_path u p q) refl
]

neither : (a b : Bool) → (a || b) ≡ false → (a ≡ false) × (b ≡ false)
neither true b h = cc
neither false b h = (refl, h)

module _ {Float : Type 0} (float_zero : Float) (percent : ℕ → ℕ → Float) where
  detail_of-IsFaithful :
      (u : PathMap (List ℤ)) (e : Bytes × Counted)
      → IsCounted u e
      → IsFaithful u (detail_of float_zero percent u e)
  detail_of-IsFaithful u e h = (h, detail_ranges u e.0)

  counted_of-map :
      (u : PathMap (List ℤ)) (m : PathMap Counted) (p : Bytes) (c : Counted)
      → counted_of m p ≡ some c
      → (d : FileCoverageDetail Float) × (counted_of (map (detail_of float_zero percent u) m) p
          ≡ some d)
        × (d.lines_covered ≡ c.lines_covered)
        × (d.lines_total ≡ c.lines_total)
  counted_of-map u [] p c h = cc
  counted_of-map u (e ∷ m) p c h = elim (Bool-cases (bytes_eq e.0 p)) [
    | inl t ↦
        let h' : some e.1 ≡ some c = rw t at h in
        let same : e.1 ≡ c = cc in
        (
          (detail_of float_zero percent u e).1,
          rw t refl,
          ap (λ (k : Counted). k.lines_covered) same,
          ap (λ (k : Counted). k.lines_total) same,
        )
    | inr t ↦
        let h' : counted_of m p ≡ some c = rw t at h in
        let (d, there, covered, total) = counted_of-map u m p c h' in
        (d, rw t there, covered, total)
  ]

  report_of-HasRecords :
      (lines : List Bytes)
      → IsDistinct (names lines)
      → HasRecords lines (report_of float_zero percent (flush (scan_lines lines new_scan)))
  report_of-HasRecords lines distinct =
      let s = flush (scan_lines lines new_scan) in
      let r = report_of float_zero percent s in
      In-All
        (λ p.
          ((ltb max_files_to_parse (length (names lines)) || is_empty p) ≡ true)
          ⊎ IsMadeOf (hits_of p lines) p r)
        (names lines)
        (λ p i. elim (Bool-cases (ltb max_files_to_parse (length (names lines)) || is_empty p)) [
          | inl t ↦ inl t
          | inr t ↦
              let (few, ne) =
                neither (ltb max_files_to_parse (length (names lines))) (is_empty p) t in
              let filed = scanned-IsFiled p lines ne distinct (ground (arith, few)) i in
              let (d, there, covered, total) =
                counted_of-map s.uncovered_lines s.file_coverage p _ filed.entry in
              inr (record {
                detail = d;
                entry = there;
                covered = covered;
                total = total;
                uncovered = filed.lines;
              })
        ])

  -- Of a file that is small enough and is read without an error, in which no two records name the same file,
  -- parse_lcov makes a report. For each file of the report the lines that are covered and the uncovered lines
  -- that are listed make up its total, and its ranges have just these uncovered lines, in order. Where there
  -- are at most 500 records, the report has each that has a name, with the hits between the line that names it
  -- and its end: its total is their number, those that ran are covered, and the lines of the others are listed.
  pub parse_lcov-IsFaithful :
      (bytes : ℕ) (lines : List Bytes) (fails : Bool → Bool)
      → ltb max_coverage_file_size bytes ≡ false
      → ((stopped : Bool) → fails stopped ≡ false)
      → IsDistinct (names lines)
      → (r : CoverageReport Float) × (parse_lcov float_zero percent (opened bytes lines fails)
          ≡ inr r)
        × All (IsFaithful r.uncovered_lines) r.file_coverage
        × HasRecords lines r
  unfolding parse_lcov
  parse_lcov-IsFaithful bytes lines fails small good d =
      let s = flush (scan_lines lines new_scan) in
      let k = scanned-Keeps lines d in
      (
        report_of float_zero percent s,
        rw (small, good (scan_lines lines new_scan).stopped) refl,
        All-map (IsFaithful s.uncovered_lines) (detail_of float_zero percent s.uncovered_lines)
            s.file_coverage
            (All-imp (IsCounted s.uncovered_lines)
              (λ e. IsFaithful s.uncovered_lines (detail_of float_zero percent s.uncovered_lines e))
              s.file_coverage (detail_of-IsFaithful s.uncovered_lines) k.filed),
        report_of-HasRecords lines d,
      )

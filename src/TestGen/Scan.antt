-- ===== src/TestGen/Scan.antt =====
-- The loop of ParseLcov (test-gen/testgen/coverage.go) over the lines of a report. A Go map is a list of its entries.
pub mod Maps
pub mod Counts
pub mod Files
pub mod Records
pub mod Stays
pub mod Filed
use shipmates_oss.Prelude.{
  ℕ, ◌+◌, Bool, true, false, Option, none, some, List, [], ◌∷◌, ◌++◌, drop, ltb, ◌==◌,
  if◌then◌else◌,
}
use shipmates_oss.Prelude.Bytes.{Bytes, codes, bytes_eq, has_prefix}
use shipmates_oss.Prelude.Int.{ℤ, pos, ltb_ℤ}
use shipmates_oss.TestGen.Atoi.{atoi}

abbrev pub max_files_to_parse : ℕ
max_files_to_parse = 500

abbrev pub sf : Bytes
sf = codes "SF:"

abbrev pub da : Bytes
da = codes "DA:"

abbrev pub end_of_record : Bytes
end_of_record = codes "end_of_record"

abbrev pub PathMap : Type 0 → Type 0
PathMap V = List (Bytes × V)

abbrev pub set_path : {V : Type 0} → Bytes → V → PathMap V → PathMap V
set_path path v [] = (path, v) ∷ []
set_path path v (e ∷ m) =
    let rest = set_path path v m in if bytes_eq path e.0 then rest else e ∷ rest

abbrev pub uncovered_of : PathMap (List ℤ) → Bytes → List ℤ
uncovered_of [] path = []
uncovered_of (e ∷ m) path =
    let rest = uncovered_of m path in if bytes_eq e.0 path then e.1 else rest

abbrev pub has_path : PathMap (List ℤ) → Bytes → Bool
has_path [] path = false
has_path (e ∷ m) path = let rest = has_path m path in if bytes_eq e.0 path then true else rest

-- FileCoverageDetail as the loop makes it. Its percentage and its ranges are added after the loop.
pub record Counted : Type 0 where
  pub lines_covered : ℕ
  pub lines_total : ℕ

-- The variables of the loop; `stopped` once it is left by its break.
pub record Scan : Type 0 where
  pub file_coverage : PathMap Counted
  pub uncovered_lines : PathMap (List ℤ)
  pub current_file : Bytes
  pub lines_covered : ℕ
  pub lines_total : ℕ
  pub current_uncovered : List ℤ
  pub file_count : ℕ
  pub stopped : Bool

abbrev pub is_empty : {A : Type 0} → List A → Bool
is_empty [] = true
is_empty (x ∷ xs) = false

abbrev pub file_record : Scan → Scan
file_record s = record {
  file_coverage =
      set_path s.current_file
        (record { lines_covered = s.lines_covered; lines_total = s.lines_total }) s.file_coverage;
  uncovered_lines =
      if is_empty s.current_uncovered
      then s.uncovered_lines
      else set_path s.current_file s.current_uncovered s.uncovered_lines;
  current_file = s.current_file;
  lines_covered = s.lines_covered;
  lines_total = s.lines_total;
  current_uncovered = s.current_uncovered;
  file_count = s.file_count;
  stopped = s.stopped;
}

-- Files the current record, if it has a name.
abbrev pub flush : Scan → Scan
flush s = if is_empty s.current_file then s else file_record s

-- The next record, of a file with this name.
abbrev pub begin : Bytes → ℕ → Scan → Scan
begin path count s = record {
  file_coverage = s.file_coverage;
  uncovered_lines = s.uncovered_lines;
  current_file = path;
  lines_covered = 0;
  lines_total = 0;
  current_uncovered = [];
  file_count = count;
  stopped = s.stopped;
}

abbrev pub stop : ℕ → Scan → Scan
stop count s = record {
  file_coverage = s.file_coverage;
  uncovered_lines = s.uncovered_lines;
  current_file = s.current_file;
  lines_covered = s.lines_covered;
  lines_total = s.lines_total;
  current_uncovered = s.current_uncovered;
  file_count = count;
  stopped = true;
}

abbrev pub next_file : Bytes → Scan → Scan
next_file path s =
    let count = s.file_count + 1 in
    if ltb max_files_to_parse count then stop count s else begin path count s

abbrev pub before : ℕ → Option (Bytes × Bytes) → Option (Bytes × Bytes)
before c none = none
before c (some p) = some (c ∷ p.0, p.1)

-- strings.SplitN(s, ",", 2), where it has two parts
abbrev pub cut : Bytes → Option (Bytes × Bytes)
cut [] = none
cut (c ∷ s) = let rest = before c (cut s) in if c == b',' then some ([], s) else rest

abbrev pub hit : ℤ → ℤ → Scan → Scan
hit line count s =
    let covered = ltb_ℤ (pos 0) count in
    record {
      file_coverage = s.file_coverage;
      uncovered_lines = s.uncovered_lines;
      current_file = s.current_file;
      lines_covered = if covered then s.lines_covered + 1 else s.lines_covered;
      lines_total = s.lines_total + 1;
      current_uncovered =
          if covered then s.current_uncovered else s.current_uncovered ++ (line ∷ []);
      file_count = s.file_count;
      stopped = s.stopped;
    }

abbrev pub hit_parsed : Option ℤ → Option ℤ → Scan → Scan
hit_parsed (some line) (some count) s = hit line count s
hit_parsed _ _ s = s

abbrev pub da_line : Option (Bytes × Bytes) → Scan → Scan
da_line none s = s
da_line (some p) s = hit_parsed (atoi p.0) (atoi p.1) s

abbrev pub scan_line : Bytes → Scan → Scan
scan_line line s =
    if has_prefix line sf
    then next_file (drop 3 line) (flush s)
    else (if has_prefix line da
        then da_line (cut (drop 3 line)) s
        else (if bytes_eq line end_of_record then begin [] s.file_count (flush s) else s))

abbrev pub scan_lines : List Bytes → Scan → Scan
scan_lines [] s = s
scan_lines (line ∷ lines) s =
    let t = scan_line line s in let rest = scan_lines lines t in if t.stopped then t else rest

abbrev pub new_scan : Scan
new_scan = record {
  file_coverage = [];
  uncovered_lines = [];
  current_file = [];
  lines_covered = 0;
  lines_total = 0;
  current_uncovered = [];
  file_count = 0;
  stopped = false;
}

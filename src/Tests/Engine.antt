-- ===== src/Tests/Engine.antt =====
-- Edits on small files. Floats are fractions here: a numerator and a denominator.
use shipmates_oss.Prelude.{
  ℕ, ◌+◌, ◌-◌, ◌*◌, ◌≤◌, ◌<◌, ◌≡◌, refl, true, false, none, some, List, [], ◌∷◌, ltb, All,
  if◌then◌else◌, arith,
}
use shipmates_oss.Prelude.Bytes.{Bytes, bytes_eq, codes}
use shipmates_oss.Engine.FilePath.{clean, join_path, dir}
use shipmates_oss.Engine.Similarity.{Floats, levenshtein_ratio}
use shipmates_oss.Engine.Similarity.Strict.{levenshtein_ratio_strict}
use shipmates_oss.Engine.Match.{Match, Method, Candidate, find_match}
use shipmates_oss.Engine.Match.Exact.{IsOnlyAt, find_match_exact}
use shipmates_oss.Engine.Apply.{
  FileEdit, NewFile, ApplyResult, done, failed, Failure, Info, Os, reject_unsafe_path, apply_edits,
  edit_entry,
}
use shipmates_oss.Engine.Apply.Confined.{IsSafe, apply_edits_confined}
use shipmates_oss.Engine.Apply.Totals.{AccountsFor, apply_edits_accounts}

abbrev fractions : Floats
fractions = record {
  Float = ℕ × ℕ;
  zero = (0, 1);
  one = (1, 1);
  half = (1, 2);
  fuzzy_threshold = (85, 100);
  closeness = λ d n. (n - d, n);
  share = λ k n. (k, n);
  add = λ x y. (x.0 * y.1 + y.0 * x.1, x.1 * y.1);
  over = λ x n. (x.0, x.1 * n);
  less = λ x y. ltb (x.0 * y.1) (y.0 * x.1);
}

half_is_below :
    (d n : ℕ)
    → n ≤ 2 * d
    → 0 < n
    → fractions.less (fractions.closeness d n) fractions.fuzzy_threshold ≡ true
half_is_below d n h pos = ground arith

levenshtein_ratio_strict_example :
    levenshtein_ratio fractions (codes "return value") (codes "return values") (85, 100)
    ≡ (if bytes_eq (codes "return value") (codes "return values") then (1, 1) else (0, 1))
levenshtein_ratio_strict_example =
    levenshtein_ratio_strict fractions (85, 100) half_is_below (codes "return value")
      (codes "return values")

abbrev same : List (Candidate fractions) → List (Candidate fractions)
same cs = cs

abbrev foo_at_2 : Match
foo_at_2 = record { start = 2; end = 5; method = Method.exact }

finds_foo : find_match fractions same (codes "x foo y") (codes "foo") ≡ some (some foo_at_2)
unfolding find_match
finds_foo = refl

find_match_exact_example : IsOnlyAt 2 (codes "foo") (codes "x foo y") × ◌≡◌ {A = ℕ} 5 (2 + 3)
find_match_exact_example =
    find_match_exact fractions same (codes "x foo y") (codes "foo") foo_at_2 finds_foo refl

-- The second line is found at 2, which is its place in the file without the blanks at the ends of lines.
normalized_place :
    find_match fractions same (codes "a  \nfoo") (codes "foo \t")
    ≡ some (some (record { start = 2; end = 5; method = Method.normalized }))
unfolding find_match
normalized_place = refl

panic_on_nothing : find_match fractions same [] [] ≡ none
unfolding find_match
panic_on_nothing = refl

-- A disk that logs what is written; each file reads as one text.
abbrev logging : Os
logging = record {
  Disk = List Bytes;
  lstat = λ d p. Info.found false;
  eval_symlinks = λ d p. done p;
  read_file = λ d p. done (codes "x foo y");
  write_file = λ d p c. (done tt, p ∷ d);
  mkdir_all = λ d p. (done tt, d);
}

abbrev repo : Bytes
repo = codes "/work"

abbrev edits : List FileEdit
edits =
    record { file_path = codes "src/a.go"; search_text = codes "foo"; replace_text = codes "bar" }
    ∷ record { file_path = codes "../b.go"; search_text = codes "foo"; replace_text = codes "bar" }
    ∷ []

abbrev files : List NewFile
files = record { file_path = codes "c.go"; content = codes "z" } ∷ []

two_written :
    (apply_edits logging fractions same repo edits files []).1
    ≡ codes "/work/c.go" ∷ codes "/work/src/a.go" ∷ []
unfolding apply_edits clean join_path dir reject_unsafe_path find_match
two_written = refl

abbrev Named : Bytes → Type 0
Named path = (name : Bytes) × IsSafe name × (path ≡ join_path repo name)

apply_edits_confined_example : All Named (apply_edits logging fractions same repo edits files []).1
apply_edits_confined_example =
    apply_edits_confined logging fractions same repo [] edits files (All Named)
      (λ resolved path content d e may i. ((may.edit.file_path, may.safe, may.place), i))
      (λ resolved path content d e may i. ((may.file.file_path, may.safe, may.place), i))
      (λ path d may i. i) tt

abbrev reported : ApplyResult
reported = record {
  applied =
      record { file_path = codes "src/a.go"; failure = none; original_search_text = [] }
      ∷ edit_entry
          (record {
            file_path = codes "../b.go";
            search_text = codes "foo";
            replace_text = codes "bar";
          })
          (failed (Failure.unsafe_path (codes "../b.go")))
      ∷ [];
  created = record { file_path = codes "c.go"; failure = none; original_search_text = [] } ∷ [];
  total_applied = 2;
  total_failed = 1;
}

reports : (apply_edits logging fractions same repo edits files []).0 ≡ done reported
unfolding apply_edits clean join_path dir reject_unsafe_path find_match
reports = refl

apply_edits_accounts_example : AccountsFor edits files reported
apply_edits_accounts_example =
    apply_edits_accounts logging fractions same repo edits files [] reported reports

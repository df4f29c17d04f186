-- ===== src/Engine/Apply.antt =====
-- ApplyEdits of bot/orchestrator/engine/apply.go. The operating system is a parameter.
pub mod Confined
pub mod Totals
use shipmates_oss.Prelude.{
  ℕ, zero, suc, ◌+◌, Bool, true, false, not, ◌&&◌, ◌||◌, Option, none, some, List, [], ◌∷◌, ◌++◌,
  leb, ◌==◌, if◌then◌else◌, length, take, drop, exists, count,
}
use shipmates_oss.Prelude.Bytes.{Bytes, bytes_eq, codes, has_prefix, contains}
use shipmates_oss.Engine.FilePath.{dot_dot, join_path, dir}
use shipmates_oss.Engine.Similarity.{Floats}
use shipmates_oss.Engine.Match.{Match, Candidate, find_match}

pub record FileEdit : Type 0 where
  pub file_path : Bytes
  pub search_text : Bytes
  pub replace_text : Bytes

pub record NewFile : Type 0 where
  pub file_path : Bytes
  pub content : Bytes

pub data Failure : Type 0 where
  unsafe_path : Bytes → Failure
  invalid_characters : Bytes → Failure
  symlink : Failure
  escapes_repository : Failure
  not_found_or_ambiguous : Failure
  -- an error of the operating system, with its text
  os : Bytes → Failure

pub record Entry : Type 0 where
  pub file_path : Bytes
  -- Success, or Error
  pub failure : Option Failure
  pub original_search_text : Bytes

pub record ApplyResult : Type 0 where
  pub applied : List Entry
  pub created : List Entry
  pub total_applied : ℕ
  pub total_failed : ℕ

-- What a call of the operating system, or a round of a loop, comes to. A panic ends the program.
pub data Outcome {ℓ} (A : Type ℓ) : Type ℓ where
  done : A → Outcome A
  failed : Failure → Outcome A
  panics : Outcome A

pub data Info : Type 0 where
  missing : Info
  found : Bool → Info
  no_info : Bytes → Info

-- os.Lstat, filepath.EvalSymlinks, os.ReadFile, os.WriteFile and os.MkdirAll, over whatever they act on.
pub record Os : Type 1 where
  pub Disk : Type 0
  pub lstat : Disk → Bytes → Info
  pub eval_symlinks : Disk → Bytes → Outcome Bytes
  pub read_file : Disk → Bytes → Outcome Bytes
  pub write_file : Disk → Bytes → Bytes → Outcome (Unit {0}) × Disk
  pub mkdir_all : Disk → Bytes → Outcome (Unit {0}) × Disk

-- [a-zA-Z0-9_.\-/]
abbrev pub is_path_byte : ℕ → Bool
is_path_byte c =
    (leb b'a' c && leb c b'z')
    || (leb b'A' c && leb c b'Z')
    || (leb b'0' c && leb c b'9')
    || (c == b'_' || (c == b'.' || (c == b'-' || c == b'/')))

unfoldable pub reject_unsafe_path : Bytes → Option Failure
reject_unsafe_path path =
    if contains path dot_dot || has_prefix path (b'/' ∷ [])
    then some (unsafe_path path)
    else if (length path == 0) || exists (λ c. not (is_path_byte c)) path
    then some (invalid_characters path)
    else none

abbrev pub inside : Bytes → Bytes → Bool
inside repo path = has_prefix path (repo ++ (b'/' ∷ []))

module _ (o : Os) where
  abbrev pub M : Type 0 → Type 0
  M A = o.Disk → Outcome A × o.Disk

  abbrev pub pure : {A : Type 0} → A → M A
  pure a d = (done a, d)

  abbrev pub follow : {A B : Type 0} → Outcome A → (A → M B) → M B
  follow (done a) k d = k a d
  follow (failed e) k d = (failed e, d)
  follow panics k d = (panics, d)

  infixl 5 ◌>>=◌ ◌>>◌
  abbrev pub ◌>>=◌ : {A B : Type 0} → M A → (A → M B) → M B
  ◌>>=◌ m k d = let (r, d') = m d in follow r k d'

  abbrev pub ◌>>◌ : {A B : Type 0} → M A → M B → M B
  m >> k = m >>= λ _. k

  abbrev pub reads : {A : Type 0} → (o.Disk → Outcome A) → M A
  reads f d = (f d, d)

  -- if err := …; err != nil { append an entry; continue }
  abbrev pub unless : Option Failure → M (Unit {0})
  unless none d = (done tt, d)
  unless (some e) d = (failed e, d)

  abbrev pub ensure : Bool → Failure → M (Unit {0})
  ensure true e d = (done tt, d)
  ensure false e d = (failed e, d)

  abbrev pub no_symlink : Info → Outcome (Unit {0})
  no_symlink missing = done tt
  no_symlink (found true) = failed symlink
  no_symlink (found false) = done tt
  no_symlink (no_info e) = failed (os e)

  abbrev pub settled : Option (Option Match) → Outcome Match
  settled none = panics
  settled (some none) = failed not_found_or_ambiguous
  settled (some (some m)) = done m

  abbrev pub replaced : Bytes → Match → Bytes → Bytes
  replaced content m replacement = take m.start content ++ (replacement ++ drop m.end content)

  module _ (f : Floats) (sort : List (Candidate f) → List (Candidate f))
      (repo_dir resolved_repo : Bytes) where
    unfoldable pub edit_file : FileEdit → M (Unit {0})
    edit_file edit = do
      unless (reject_unsafe_path edit.file_path)
      let path = join_path repo_dir edit.file_path
      reads (λ d. no_symlink (o.lstat d path))
      resolved ← reads (λ d. o.eval_symlinks d path)
      ensure (inside resolved_repo resolved) escapes_repository
      content ← reads (λ d. o.read_file d path)
      m ← reads (λ d. settled (find_match f sort content edit.search_text))
      (λ d. o.write_file d path (replaced content m edit.replace_text))

    unfoldable pub create_file : NewFile → M (Unit {0})
    create_file file = do
      unless (reject_unsafe_path file.file_path)
      let path = join_path repo_dir file.file_path
      (λ d. o.mkdir_all d (dir path))
      resolved ← reads (λ d. o.eval_symlinks d (dir path))
      ensure (inside resolved_repo resolved || bytes_eq resolved resolved_repo) escapes_repository
      (λ d. o.write_file d path file.content)

  -- One entry for each item, and the panic of any.
  abbrev pub entered :
      {A : Type 0}
      → (A → Outcome (Unit {0}) → Entry)
      → A
      → Outcome (Unit {0})
      → M (List Entry)
      → M (List Entry)
  entered entry x (done u) rest d = (rest >>= λ es. pure (entry x (done u) ∷ es)) d
  entered entry x (failed e) rest d = (rest >>= λ es. pure (entry x (failed e) ∷ es)) d
  entered entry x panics rest d = (panics, d)

  -- The loop of ApplyEdits over its edits, and over its new files.
  unfoldable pub each :
      {A : Type 0} → (A → M (Unit {0})) → (A → Outcome (Unit {0}) → Entry) → List A → M (List Entry)
  each step entry [] d = (done [], d)
  each step entry (x ∷ xs) d = let (r, d') = step x d in entered entry x r (each step entry xs) d'

abbrev pub failure_of : Outcome (Unit {0}) → Option Failure
failure_of (failed e) = some e
failure_of _ = none

-- OriginalSearchText is filled in for one failure.
abbrev pub search_text_of : Bytes → Outcome (Unit {0}) → Bytes
search_text_of text (failed not_found_or_ambiguous) = text
search_text_of text _ = []

abbrev pub edit_entry : FileEdit → Outcome (Unit {0}) → Entry
edit_entry edit r = record {
  file_path = edit.file_path;
  failure = failure_of r;
  original_search_text = search_text_of edit.search_text r;
}

abbrev pub file_entry : NewFile → Outcome (Unit {0}) → Entry
file_entry file r = record {
  file_path = file.file_path;
  failure = failure_of r;
  original_search_text = [];
}

abbrev pub is_none : Option Failure → Bool
is_none none = true
is_none (some e) = false

abbrev pub succeeded : Entry → Bool
succeeded e = is_none e.failure

abbrev pub total : (Entry → Bool) → List Entry → List Entry → ℕ
total p applied created = count p applied + count p created

abbrev pub apply_result : List Entry → List Entry → ApplyResult
apply_result applied created = record {
  applied = applied;
  created = created;
  total_applied = total succeeded applied created;
  total_failed = total (λ e. not (succeeded e)) applied created;
}

module _ (o : Os) (f : Floats) (sort : List (Candidate f) → List (Candidate f))
    (repo_dir : Bytes) where
  unfoldable pub apply_edits : List FileEdit → List NewFile → M o ApplyResult
  unfolding each edit_file create_file
  apply_edits edits new_files = ◌>>=◌ o (reads o (λ d. o.eval_symlinks d repo_dir)) λ resolved.
      ◌>>=◌ o (each o (edit_file o f sort repo_dir resolved) edit_entry edits) λ applied.
        ◌>>=◌ o (each o (create_file o f sort repo_dir resolved) file_entry new_files)
          λ created. pure o (apply_result applied created)

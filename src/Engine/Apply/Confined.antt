-- ===== src/Engine/Apply/Confined.antt =====
-- Where ApplyEdits (bot/orchestrator/engine/apply.go) can write.
use shipmates_oss.Prelude.{
  ◌≡◌, refl, inl, inr, Bool, true, false, not, ◌||◌, Option, none, some, List, [], ◌∷◌, exists,
  length, ◌==◌, Bool-cases, In,
}
use shipmates_oss.Prelude.Bytes.{Bytes, bytes_eq, contains, has_prefix}
use shipmates_oss.Engine.FilePath.{dot_dot, join_path, dir}
use shipmates_oss.Engine.Similarity.{Floats}
use shipmates_oss.Engine.Match.{Match, Candidate, find_match}
use shipmates_oss.Engine.Apply.{
  FileEdit, NewFile, Entry, Outcome, done, failed, panics, Os, M, ◌>>=◌, ◌>>◌, follow, reads,
  unless, ensure, entered, each, edit_file, create_file, edit_entry, file_entry, apply_edits,
  Failure, escapes_repository, unsafe_path, invalid_characters, reject_unsafe_path, inside,
  is_path_byte, settled, no_symlink, replaced,
}

-- A relative path of the allowed bytes that has no `..` in it.
pub record IsSafe (path : Bytes) : Type 0 where
  pub no_dots : contains path dot_dot ≡ false
  pub relative : has_prefix path (b'/' ∷ []) ≡ false
  pub allowed : exists (λ c. not (is_path_byte c)) path ≡ false
  pub nonempty : (length path == 0) ≡ false

neither : (a b : Bool) → (a || b) ≡ false → (a ≡ false) × (b ≡ false)
neither true b h = cc
neither false b h = (refl, h)

reject-IsSafe : (path : Bytes) → reject_unsafe_path path ≡ none → IsSafe path
unfolding reject_unsafe_path
reject-IsSafe path h = elim (Bool-cases (contains path dot_dot || has_prefix path (b'/' ∷ []))) [
  | inl e ↦ let h' : some (unsafe_path path) ≡ none = rw e at h in cc
  | inr e ↦ elim (Bool-cases ((length path == 0) || exists (λ c. not (is_path_byte c)) path)) [
    | inl k ↦ let h' : some (invalid_characters path) ≡ none = rw (e, k) at h in cc
    | inr k ↦ record {
      no_dots = (neither _ _ e).0;
      relative = (neither _ _ e).1;
      allowed = (neither _ _ k).1;
      nonempty = (neither _ _ k).0;
    }
  ]
]

module _ (o : Os) (I : o.Disk → Type 0) where
  abbrev Keeps : {A : Type 0} → M o A → Type 0
  Keeps m = (d : o.Disk) → I d → I (m d).1

  follow_keeps :
      {A B : Type 0} (r : Outcome A) (k : A → M o B) (d : o.Disk)
      → I d
      → ((a : A) → r ≡ done a → I (k a d).1)
      → I (follow o r k d).1
  follow_keeps (done a) k d i h = h a refl
  follow_keeps (failed e) k d i h = i
  follow_keeps panics k d i h = i

  entered_keeps :
      {A : Type 0} (entry : A → Outcome (Unit {0}) → Entry) (x : A) (r : Outcome (Unit {0}))
      (rest : M o (List Entry)) (d : o.Disk)
      → I d
      → Keeps rest
      → I (entered o entry x r rest d).1
  entered_keeps entry x (done u) rest d i h =
      follow_keeps (rest d).0 _ (rest d).1 (h d i) (λ a e. h d i)
  entered_keeps entry x (failed f) rest d i h =
      follow_keeps (rest d).0 _ (rest d).1 (h d i) (λ a e. h d i)
  entered_keeps entry x panics rest d i h = i

  each_keeps :
      {A : Type 0} (step : A → M o (Unit {0})) (entry : A → Outcome (Unit {0}) → Entry)
      (xs : List A)
      → ((x : A) → In x xs → Keeps (step x))
      → Keeps (each o step entry xs)
  unfolding each
  each_keeps step entry [] h d i = i
  each_keeps step entry (x ∷ xs) h d i =
      entered_keeps entry x (step x d).0 (each o step entry xs) (step x d).1 (h x (inl refl) d i)
        (each_keeps step entry xs (λ y m. h y (inr m)))

  unless_keeps :
      {B : Type 0} (c : Option Failure) (k : M o B) (d : o.Disk)
      → I d
      → (c ≡ none → I (k d).1)
      → I (◌>>◌ o (unless o c) k d).1
  unless_keeps none k d i h = h refl
  unless_keeps (some e) k d i h = i

  ensure_keeps :
      {B : Type 0} (c : Bool) (e : Failure) (k : M o B) (d : o.Disk)
      → I d
      → (c ≡ true → I (k d).1)
      → I (◌>>◌ o (ensure o c e) k d).1
  ensure_keeps true e k d i h = h refl
  ensure_keeps false e k d i h = i

  bind_keeps :
      {A B : Type 0} (m : M o A) (k : A → M o B) (d : o.Disk)
      → I (m d).1
      → ((a : A) → I (k a (m d).1).1)
      → I (◌>>=◌ o m k d).1
  bind_keeps m k d i h = follow_keeps (m d).0 k (m d).1 i (λ a e. h a)

  reads_keeps :
      {A B : Type 0} (g : o.Disk → Outcome A) (k : A → M o B) (d : o.Disk)
      → I d
      → ((a : A) → g d ≡ done a → I (k a d).1)
      → I (◌>>=◌ o (reads o g) k d).1
  reads_keeps g k d i h = follow_keeps (g d) k d i h

module _ (o : Os) (f : Floats) (sort : List (Candidate f) → List (Candidate f)) where
  -- A write for one of these edits: its name is safe; at the time of the write the file is no symbolic link and, with
  -- the links on its way followed, lies in the repository; what is written is what the file has, with the
  -- place that find_match gives replaced.
  pub record MayEdit (repo_dir resolved : Bytes) (edits : List FileEdit) (d : o.Disk)
      (path content : Bytes) : Type 0 where
    pub edit : FileEdit
    pub asked : In edit edits
    pub safe : IsSafe edit.file_path
    pub place : path ≡ join_path repo_dir edit.file_path
    pub no_link : no_symlink o (o.lstat d path) ≡ done tt
    pub target : Bytes
    pub followed : o.eval_symlinks d path ≡ done target
    pub within : inside resolved target ≡ true
    pub before : Bytes
    pub read : o.read_file d path ≡ done before
    pub match : Match
    pub matched : find_match f sort before edit.search_text ≡ some (some match)
    pub written : content ≡ replaced o before match edit.replace_text

  -- A write for one of these new files: its name is safe, and at the time of the write the directory that it goes to
  -- lies in the repository or is the repository, with the symbolic links followed.
  pub record MayCreate (repo_dir resolved : Bytes) (new_files : List NewFile) (d : o.Disk)
      (path content : Bytes) : Type 0 where
    pub file : NewFile
    pub asked : In file new_files
    pub safe : IsSafe file.file_path
    pub place : path ≡ join_path repo_dir file.file_path
    pub target : Bytes
    pub followed : o.eval_symlinks d (dir path) ≡ done target
    pub within : (inside resolved target || bytes_eq target resolved) ≡ true
    pub written : content ≡ file.content

-- A directory that one of these new files goes to.
pub record MayMake (repo_dir : Bytes) (new_files : List NewFile) (path : Bytes) : Type 0 where
  pub file : NewFile
  pub asked : In file new_files
  pub safe : IsSafe file.file_path
  pub place : path ≡ dir (join_path repo_dir file.file_path)

module _ (o : Os) (f : Floats) (sort : List (Candidate f) → List (Candidate f)) (repo_dir : Bytes)
    (I : o.Disk → Type 0) (resolved : Bytes) where
  settled_match : (r : Option (Option Match)) (m : Match) → settled o r ≡ done m → r ≡ some (some m)
  settled_match none m h = cc
  settled_match (some none) m h = cc
  settled_match (some (some n)) m h = done_match h
    where
      done_match : done n ≡ done m → some (some n) ≡ some (some m)
      done_match h = cc

  edit_file_keeps :
      (edits : List FileEdit)
      → ((path content : Bytes) (d : o.Disk)
          → MayEdit o f sort repo_dir resolved edits d path content
          → I d
          → I (o.write_file d path content).1)
      → (edit : FileEdit) → In edit edits
      → Keeps o I (edit_file o f sort repo_dir resolved edit)
  unfolding edit_file
  edit_file_keeps edits writes edit asked d i =
      let path = join_path repo_dir edit.file_path in
      unless_keeps o I (reject_unsafe_path edit.file_path) _ d i λ safe.
        reads_keeps o I (λ d. no_symlink o (o.lstat d path)) _ d i
          λ u link.
            reads_keeps o I (λ d. o.eval_symlinks d path) _ d i
              λ r evaluated. ensure_keeps o I (inside resolved r) escapes_repository _ d i λ within.
                reads_keeps o I (λ d. o.read_file d path) _ d i
                  λ content read.
                    reads_keeps o I (λ d. settled o (find_match f sort content edit.search_text)) _
                      d i
                      λ m found.
                        writes path (replaced o content m edit.replace_text) d
                          (record {
                            edit = edit;
                            asked = asked;
                            safe = reject-IsSafe edit.file_path safe;
                            place = refl;
                            no_link = link;
                            target = r;
                            followed = evaluated;
                            within = within;
                            before = content;
                            read = read;
                            match = m;
                            matched = settled_match _ m found;
                            written = refl;
                          })
                          i

  create_file_keeps :
      (new_files : List NewFile)
      → ((path content : Bytes) (d : o.Disk)
          → MayCreate o f sort repo_dir resolved new_files d path content
          → I d
          → I (o.write_file d path content).1)
      → ((path : Bytes) (d : o.Disk)
          → MayMake repo_dir new_files path
          → I d
          → I (o.mkdir_all d path).1)
      → (file : NewFile) → In file new_files
      → Keeps o I (create_file o f sort repo_dir resolved file)
  unfolding create_file
  create_file_keeps new_files writes makes file asked d i =
      let path = join_path repo_dir file.file_path in
      unless_keeps o I (reject_unsafe_path file.file_path) _ d i λ safe.
        let name_safe = reject-IsSafe file.file_path safe in
        let v = (o.mkdir_all d (dir path)).1 in
        let made : I v =
          makes (dir path) d (record { file = file; asked = asked; safe = name_safe; place = refl })
            i in
        follow_keeps o I (o.mkdir_all d (dir path)).0 _ v made λ u done_it.
          reads_keeps o I (λ d. o.eval_symlinks d (dir path)) _ v made
            λ r evaluated.
              ensure_keeps o I (inside resolved r || bytes_eq r resolved) escapes_repository _ v
                made
                λ within.
                  writes path file.content v
                    (record {
                      file = file;
                      asked = asked;
                      safe = name_safe;
                      place = refl;
                      target = r;
                      followed = evaluated;
                      within = within;
                      written = refl;
                    })
                    made

-- Whatever a disk has that the writes of MayEdit and MayCreate and the making of directories of MayMake keep,
-- ApplyEdits keeps it, also where a call fails or panics on the way: so it does nothing else to the disk. A write for
-- an edit goes to a safe name that is no symbolic link at the time and lies in the repository, and only replaces
-- the match in what the file has. A write for a new file goes to a safe name in a directory that lies in the repository
-- at the time; that the file itself is no link is not tested. The repository's own links are followed at the start.
pub apply_edits_confined :
    (o : Os) (f : Floats) (sort : List (Candidate f) → List (Candidate f)) (repo_dir : Bytes)
    (start : o.Disk) (edits : List FileEdit) (new_files : List NewFile) (I : o.Disk → Type 0)
    → ((resolved path content : Bytes) (d : o.Disk)
        → o.eval_symlinks start repo_dir ≡ done resolved
        → MayEdit o f sort repo_dir resolved edits d path content
        → I d
        → I (o.write_file d path content).1)
    → ((resolved path content : Bytes) (d : o.Disk)
        → o.eval_symlinks start repo_dir ≡ done resolved
        → MayCreate o f sort repo_dir resolved new_files d path content
        → I d
        → I (o.write_file d path content).1)
    → ((path : Bytes) (d : o.Disk)
        → MayMake repo_dir new_files path
        → I d
        → I (o.mkdir_all d path).1)
    → I start
    → I (apply_edits o f sort repo_dir edits new_files start).1
unfolding apply_edits
apply_edits_confined o f sort repo_dir start edits new_files I rewrites writes makes i =
    reads_keeps o I (λ d. o.eval_symlinks d repo_dir) _ start i
      λ resolved evaluated.
        let one =
          edit_file_keeps o f sort repo_dir I resolved edits
            (λ path content d. rewrites resolved path content d evaluated) in
        let two =
          create_file_keeps o f sort repo_dir I resolved new_files
            (λ path content d. writes resolved path content d evaluated) makes in
        let edited =
          each_keeps o I (edit_file o f sort repo_dir resolved) edit_entry edits one start i in
        bind_keeps o I (each o (edit_file o f sort repo_dir resolved) edit_entry edits) _ start
          edited
          λ applied.
            let created =
              each_keeps o I (create_file o f sort repo_dir resolved) file_entry new_files two _
                edited in
            bind_keeps o I (each o (create_file o f sort repo_dir resolved) file_entry new_files) _
              _ created λ es. created

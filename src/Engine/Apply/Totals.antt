-- ===== src/Engine/Apply/Totals.antt =====
-- The entries and the totals of ApplyEdits (bot/orchestrator/engine/apply.go).
use shipmates_oss.Prelude.{
  suc, ◌+◌, inl, inr, subst, ◌≡◌, refl, sym, ap, Bool, not, List, [], ◌∷◌, map, length, count,
  Bool-cases, arith,
}
use shipmates_oss.Prelude.Bytes.{Bytes}
use shipmates_oss.Engine.Similarity.{Floats}
use shipmates_oss.Engine.Match.{Candidate}
use shipmates_oss.Engine.Apply.{
  FileEdit, NewFile, Entry, ApplyResult, Outcome, done, failed, panics, Os, M, follow, pure,
  entered, each, edit_file, create_file, edit_entry, file_entry, succeeded, apply_result,
  apply_edits,
}

module _ (o : Os) where
  follow_done :
      {A B : Type 0} (r : Outcome A) (k : A → M o B) (d : o.Disk) {b : B}
      → (follow o r k d).0 ≡ done b
      → (a : A) × (r ≡ done a) × ((k a d).0 ≡ done b)
  follow_done (done a) k d h = (a, refl, h)
  follow_done (failed e) k d {b} h = let h' : failed e ≡ done b = h in cc
  follow_done panics k d {b} h = let h' : panics ≡ done b = h in cc

  entered_done :
      {A : Type 0} (entry : A → Outcome (Unit {0}) → Entry) (x : A) (r : Outcome (Unit {0}))
      (rest : M o (List Entry)) (d : o.Disk) {es : List Entry}
      → (entered o entry x r rest d).0 ≡ done es
      → (fs : List Entry) × ((rest d).0 ≡ done fs) × (es ≡ entry x r ∷ fs)
  entered_done entry x (done u) rest d {es} h =
      let (fs, e, k) = follow_done (rest d).0 (λ fs. pure o (entry x (done u) ∷ fs)) (rest d).1 h in
      let k' : done (entry x (done u) ∷ fs) ≡ done es = k in (fs, e, cc)
  entered_done entry x (failed f) rest d {es} h =
      let (fs, e, k) =
        follow_done (rest d).0 (λ fs. pure o (entry x (failed f) ∷ fs)) (rest d).1 h in
      let k' : done (entry x (failed f) ∷ fs) ≡ done es = k in (fs, e, cc)
  entered_done entry x panics rest d {es} h = let h' : panics ≡ done es = h in cc

  -- An entry for each item, in their order.
  each_paths :
      {A : Type 0} (step : A → M o (Unit {0})) (entry : A → Outcome (Unit {0}) → Entry)
      (path : A → Bytes)
      → ((x : A) (r : Outcome (Unit {0})) → (entry x r).file_path ≡ path x)
      → (xs : List A) (d : o.Disk) (es : List Entry) → (each o step entry xs d).0 ≡ done es
      → map (λ (e : Entry). e.file_path) es ≡ map path xs
  unfolding each
  each_paths step entry path named [] d es h =
      let h' : done [] ≡ done es = h in let e : [] ≡ es = cc in rw (sym e)
  each_paths step entry path named (x ∷ xs) d es h =
      let (fs, rest, e) = entered_done entry x (step x d).0 (each o step entry xs) (step x d).1 h in
      let later = each_paths step entry path named xs (step x d).1 fs rest in
      rw (e, named x (step x d).0, later)

length-map {ℓ κ} :
    {A : Type ℓ} {B : Type κ} (f : A → B) (xs : List A) → length (map f xs) ≡ length xs
length-map f [] = refl
length-map f (x ∷ xs) = ap suc (length-map f xs)

count-not :
    (p : Entry → Bool) (es : List Entry) → count p es + count (λ e. not (p e)) es ≡ length es
count-not p [] = refl
count-not p (e ∷ es) = elim (Bool-cases (p e)) [
  | inl h ↦ rw h (omega (arith, count-not p es))
  | inr h ↦ rw h (omega (arith, count-not p es))
]

-- What a result of ApplyEdits accounts for.
pub record AccountsFor (edits : List FileEdit) (new_files : List NewFile) (r : ApplyResult)
    : Type 0 where
  pub applied :
      map (λ (e : Entry). e.file_path) r.applied ≡ map (λ (e : FileEdit). e.file_path) edits
  pub created :
      map (λ (e : Entry). e.file_path) r.created ≡ map (λ (n : NewFile). n.file_path) new_files
  pub all : r.total_applied + r.total_failed ≡ length edits + length new_files

apply_result-AccountsFor :
    (edits : List FileEdit) (new_files : List NewFile) (applied created : List Entry)
    → map (λ (e : Entry). e.file_path) applied ≡ map (λ (e : FileEdit). e.file_path) edits
    → map (λ (e : Entry). e.file_path) created ≡ map (λ (n : NewFile). n.file_path) new_files
    → AccountsFor edits new_files (apply_result applied created)
apply_result-AccountsFor edits new_files applied created ha hc = record {
  applied = ha;
  created = hc;
  all = omega (
    arith,
    count-not succeeded applied,
    count-not succeeded created,
    ap length ha,
    ap length hc,
    length-map (λ (e : Entry). e.file_path) applied,
    length-map (λ (e : Entry). e.file_path) created,
    length-map (λ (e : FileEdit). e.file_path) edits,
    length-map (λ (n : NewFile). n.file_path) new_files,
  );
}

done_inj : {A : Type 0} {a b : A} → done a ≡ done b → a ≡ b
done_inj h = cc

-- Where ApplyEdits returns a result, this has one entry for each edit and each new file, in their order, and
-- its two totals add up to their number.
pub apply_edits_accounts :
    (o : Os) (f : Floats) (sort : List (Candidate f) → List (Candidate f)) (repo_dir : Bytes)
    (edits : List FileEdit) (new_files : List NewFile) (d : o.Disk) (r : ApplyResult)
    → (apply_edits o f sort repo_dir edits new_files d).0 ≡ done r
    → AccountsFor edits new_files r
unfolding apply_edits
apply_edits_accounts o f sort repo_dir edits new_files d r h =
    let (resolved, he, h1) = follow_done o (o.eval_symlinks d repo_dir) _ d h in
    let edited = each o (edit_file o f sort repo_dir resolved) edit_entry edits d in
    let (applied, ha, h2) = follow_done o edited.0 _ edited.1 h1 in
    let made = each o (create_file o f sort repo_dir resolved) file_entry new_files edited.1 in
    let (created, hc, h3) = follow_done o made.0 _ made.1 h2 in
    let result : apply_result applied created ≡ r = done_inj h3 in
    subst (AccountsFor edits new_files) result (
      apply_result-AccountsFor edits new_files applied created
        (each_paths o (edit_file o f sort repo_dir resolved) edit_entry (λ e. e.file_path)
          (λ x q. refl) edits d applied ha)
        (each_paths o (create_file o f sort repo_dir resolved) file_entry (λ n. n.file_path)
          (λ x q. refl) new_files edited.1 created hc))

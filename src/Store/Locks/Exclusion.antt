-- ===== src/Store/Locks/Exclusion.antt =====
-- The locks of several sessions, as their statements interleave (go-shared/task_locks.go). A statement
-- is atomic, so an interleaving is a list of calls, each by any session.
use native.Mathlib.Nat.{le_trans}
use shipmates_oss.Prelude.{
  ℕ, ◌≤◌, String, ◌≡◌, inl, inr, refl, sym, ◌∙◌, subst, Bool, true, false, not, List, [], ◌∷◌,
  arith, if◌then◌else◌, str_eq, select, exists, In, In-select, All, All-select, All-In, Bool-cases,
  eq_iff,
}
use shipmates_oss.Store.Types.{TaskLock}
use shipmates_oss.Store.World.{World, statement, statement_cases}
use shipmates_oss.Store.Locks.{
  locks_path, stale, acquire_row, run_locks, acquire_task_lock, delete_locks, release_task_lock,
  of_session, release_session_locks, clean_rows, clean_expired_locks, active_rows, get_active_locks,
}

-- The unique index on (user_id, file_path).
abbrev pub IsUnique : List TaskLock → Type 0
IsUnique [] = Unit
IsUnique (l ∷ ls) = All (λ m. locks_path l.user_id l.file_path m ≡ false) ls × IsUnique ls

select-IsUnique : (p : TaskLock → Bool) (ls : List TaskLock) → IsUnique ls → IsUnique (select p ls)
select-IsUnique p [] u = tt
select-IsUnique p (l ∷ ls) u = elim (Bool-cases (p l)) [
  | inl e ↦ rw e (
    All-select (λ m. locks_path l.user_id l.file_path m ≡ false) p ls u.0,
    select-IsUnique p ls u.1,
  )
  | inr e ↦ rw e (select-IsUnique p ls u.1)
]

exists_false-All :
    (p : TaskLock → Bool) (ls : List TaskLock) → exists p ls ≡ false → All (λ m. p m ≡ false) ls
exists_false-All p [] h = tt
exists_false-All p (l ∷ ls) h = (ground arith, exists_false-All p ls (ground arith))

-- Two rows of a unique table with the same user and path are one.
pub IsUnique-same :
    (ls : List TaskLock) (l m : TaskLock)
    → IsUnique ls
    → In l ls
    → In m ls
    → locks_path l.user_id l.file_path m ≡ true
    → m ≡ l
IsUnique-same [] l m u a b h = elim a [ ]
IsUnique-same (x ∷ xs) l m u (inl p) (inl q) h = q ∙ sym p
IsUnique-same (x ∷ xs) l m u (inl p) (inr b) h =
    let clash = All-In (λ z. locks_path x.user_id x.file_path z ≡ false) xs u.0 b in
    let h' = subst (λ z. locks_path z.user_id z.file_path m ≡ true) p h in absurd (cc)
IsUnique-same (x ∷ xs) l m u (inr a) (inl q) h =
    let clash = All-In (λ z. locks_path x.user_id x.file_path z ≡ false) xs u.0 a in
    let h' = subst (λ z. locks_path l.user_id l.file_path z ≡ true) q h in
    absurd (
      ground (
        arith,
        eq_iff x.user_id l.user_id,
        eq_iff x.file_path l.file_path,
        eq_iff l.user_id x.user_id,
        eq_iff l.file_path x.file_path,
      ))
IsUnique-same (x ∷ xs) l m u (inr a) (inr b) h = IsUnique-same xs l m u.1 a b h

exists-select-false :
    (p q : TaskLock → Bool) (ls : List TaskLock)
    → exists p ls ≡ false
    → exists p (select q ls) ≡ false
exists-select-false p q [] h = refl
exists-select-false p q (l ∷ ls) h = elim (Bool-cases (q l)) [
  | inl e ↦ rw e (ground (arith, exists-select-false p q ls))
  | inr e ↦ rw e (exists-select-false p q ls (ground arith))
]

module _ (cleanup_first : Bool) (row : TaskLock) (at : ℕ) where
  absent_after :
      (first : Bool) (ls : List TaskLock)
      → exists
          (locks_path row.user_id row.file_path)
          (if first then select (λ l. not (stale row.user_id row.file_path at l)) ls else ls)
        ≡ false
      → exists
          (locks_path row.user_id row.file_path)
          (select (λ l. not (stale row.user_id row.file_path at l)) ls)
        ≡ false
  absent_after true ls h = h
  absent_after false ls h = exists-select-false _ _ ls h

  acquire_row-IsUnique :
      (ls : List TaskLock) → IsUnique ls → IsUnique (acquire_row cleanup_first row at ls).1
  unfolding acquire_row
  acquire_row-IsUnique ls u =
      let kept = select (λ l. not (stale row.user_id row.file_path at l)) ls in
      let among = if cleanup_first then kept else ls in
      elim (Bool-cases (exists (locks_path row.user_id row.file_path) among)) [
        | inl e ↦ rw e (select-IsUnique _ ls u)
        | inr e ↦ rw e (
          exists_false-All (locks_path row.user_id row.file_path) kept
              (absent_after cleanup_first ls e),
          select-IsUnique _ ls u,
        )
      ]

  acquire_row-In :
      (ls : List TaskLock) (l : TaskLock)
      → In l ls
      → at ≤ l.expires_at
      → In l (acquire_row cleanup_first row at ls).1
  unfolding acquire_row
  acquire_row-In ls l m h =
      let kept = select (λ l. not (stale row.user_id row.file_path at l)) ls in
      let among = if cleanup_first then kept else ls in
      let here : In l kept = In-select _ ls m (ground (arith, h)) in
      elim (Bool-cases (exists (locks_path row.user_id row.file_path) among)) [
        | inl e ↦ rw e here
        | inr e ↦ rw e (inr here)
      ]

-- A statement on the lock table leaves it as it was, or does what it says.
pub statement_locks {ℓ} :
    {A : Type 0} (P : List TaskLock → Type ℓ) (f : World → List TaskLock → A × List TaskLock)
    (w : World)
    → P w.locks
    → ((v : World) → P (f v w.locks).1)
    → P (statement (λ v. run_locks (f v) v) w).1.locks
statement_locks P f w before after = elim (statement_cases (λ v. run_locks (f v) v) w) [
  | inl (rest, e) ↦ rw e before
  | inr (rest, c, le, e) ↦ rw e (after _)
]

statement_clock :
    {A : Type 0} (f : World → List TaskLock → A × List TaskLock) (w : World)
    → w.clock ≤ (statement (λ v. run_locks (f v) v) w).1.clock
statement_clock f w = elim (statement_cases (λ v. run_locks (f v) v) w) [
  | inl (rest, e) ↦ rw e (omega arith)
  | inr (rest, c, le, e) ↦ rw e le
]

pub data LockCall : Type 0 where
  acquires : Bool → String → String → String → String → ℕ → LockCall
  releases_path : String → String → LockCall
  releases_session : String → String → LockCall
  cleans : LockCall
  reads : String → LockCall

unfoldable pub lock_step : World → LockCall → World
lock_step w (acquires cleanup_first user_id session_id agent_id file_path duration) =
    (acquire_task_lock cleanup_first user_id session_id agent_id file_path duration w).1
lock_step w (releases_path user_id file_path) = (release_task_lock user_id file_path w).1
lock_step w (releases_session session_id user_id) = (release_session_locks session_id user_id w).1
lock_step w cleans = (clean_expired_locks w).1
lock_step w (reads user_id) = (get_active_locks user_id w).1

unfoldable pub lock_run : World → List LockCall → World
lock_run w [] = w
lock_run w (c ∷ cs) = lock_run (lock_step w c) cs

module _ (w : World) where
  lock_step-IsUnique : (c : LockCall) → IsUnique w.locks → IsUnique (lock_step w c).locks
  unfolding lock_step acquire_task_lock release_task_lock release_session_locks clean_expired_locks
      get_active_locks
  lock_step-IsUnique (acquires cf user session agent path d) u =
      statement_locks IsUnique (λ _. acquire_row cf _ _) _ u
        (λ _. acquire_row-IsUnique cf _ _ w.locks u)
  lock_step-IsUnique (releases_path user path) u =
      statement_locks IsUnique (λ _. delete_locks _) w u (λ _. select-IsUnique _ w.locks u)
  lock_step-IsUnique (releases_session session user) u =
      statement_locks IsUnique (λ v. delete_locks (of_session v.sessions session user)) w u
        (λ v. select-IsUnique _ w.locks u)
  lock_step-IsUnique cleans u =
      statement_locks IsUnique (λ _. clean_rows w.clock) w u (λ _. select-IsUnique _ w.locks u)
  lock_step-IsUnique (reads user) u =
      statement_locks IsUnique (λ _. active_rows user w.clock) w u (λ _. u)

  lock_step_clock : (c : LockCall) → w.clock ≤ (lock_step w c).clock
  unfolding lock_step acquire_task_lock release_task_lock release_session_locks clean_expired_locks
      get_active_locks
  lock_step_clock (acquires cf user session agent path d) =
      statement_clock (λ _. acquire_row cf _ _) _
  lock_step_clock (releases_path user path) = statement_clock (λ _. delete_locks _) w
  lock_step_clock (releases_session session user) =
      statement_clock (λ v. delete_locks (of_session v.sessions session user)) w
  lock_step_clock cleans = statement_clock (λ _. clean_rows w.clock) w
  lock_step_clock (reads user) = statement_clock (λ _. active_rows user w.clock) w

-- The calls that release this lock: of its path, or of its session.
abbrev pub releases : TaskLock → LockCall → Bool
releases l (releases_path user_id file_path) = locks_path user_id file_path l
releases l (releases_session session_id user_id) = str_eq l.session_id session_id
releases l _ = false

lock_step-In :
    (w : World) (c : LockCall) (l : TaskLock)
    → In l w.locks
    → releases l c ≡ false
    → (lock_step w c).clock ≤ l.expires_at
    → In l (lock_step w c).locks
unfolding lock_step acquire_task_lock release_task_lock release_session_locks clean_expired_locks
    get_active_locks
lock_step-In w (acquires cf user session agent path d) l m h t =
    statement_locks (In l) (λ _. acquire_row cf _ _) _ m
      λ _.
        acquire_row-In cf _ _ w.locks l m
          (le_trans (lock_step_clock w (acquires cf user session agent path d)) t)
lock_step-In w (releases_path user path) l m h t =
    statement_locks (In l) (λ _. delete_locks (locks_path user path)) w m
      (λ _. In-select (λ k. not (locks_path user path k)) w.locks m (rw h))
lock_step-In w (releases_session session user) l m h t =
    statement_locks (In l) (λ v. delete_locks (of_session v.sessions session user)) w m
      (λ v. In-select (λ k. not (of_session v.sessions session user k)) w.locks m (ground arith))
lock_step-In w cleans l m h t =
    let le : w.clock ≤ l.expires_at = le_trans (lock_step_clock w cleans) t in
    statement_locks (In l) (λ _. clean_rows w.clock) w m (λ _. In-select _ w.locks m (ground arith))
lock_step-In w (reads user) l m h t =
    statement_locks (In l) (λ _. active_rows user w.clock) w m (λ _. m)

-- From a table with at most one lock for each user and path, however the calls of all sessions
-- interleave, at most one is there for each.
pub lock_run-IsUnique :
    (w : World) (cs : List LockCall) → IsUnique w.locks → IsUnique (lock_run w cs).locks
unfolding lock_run
lock_run-IsUnique w [] u = u
lock_run-IsUnique w (c ∷ cs) u = lock_run-IsUnique (lock_step w c) cs (lock_step-IsUnique w c u)

lock_run_clock : (w : World) (cs : List LockCall) → w.clock ≤ (lock_run w cs).clock
unfolding lock_run
lock_run_clock w [] = omega arith
lock_run_clock w (c ∷ cs) = omega (arith, lock_step_clock w c, lock_run_clock (lock_step w c) cs)

lock_run-In :
    (w : World) (cs : List LockCall) (l : TaskLock)
    → In l w.locks
    → All (λ c. releases l c ≡ false) cs
    → (lock_run w cs).clock ≤ l.expires_at
    → In l (lock_run w cs).locks
unfolding lock_run
lock_run-In w [] l m h t = m
lock_run-In w (c ∷ cs) l m h t =
    lock_run-In (lock_step w c) cs l
      (lock_step-In w c l m h.0 (omega (arith, lock_run_clock (lock_step w c) cs))) h.1 t

-- In a table with at most one lock for each user and path, a lock that is there stays, until its time is over, through any calls of any sessions of which none
-- releases its path or its session; and no other lock on its path is there beside it.
pub lock_excludes :
    (w : World) (cs : List LockCall) (l : TaskLock)
    → IsUnique w.locks
    → In l w.locks
    → All (λ c. releases l c ≡ false) cs
    → (lock_run w cs).clock ≤ l.expires_at
    → In l (lock_run w cs).locks
      × ((m : TaskLock)
          → In m (lock_run w cs).locks
          → locks_path l.user_id l.file_path m ≡ true
          → m ≡ l)
lock_excludes w cs l u m h t =
    let here = lock_run-In w cs l m h t in
    (here, λ k mk same. IsUnique-same _ l k (lock_run-IsUnique w cs u) here mk same)

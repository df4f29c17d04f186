-- ===== src/Store/Locks.antt =====
-- go-shared/task_locks.go: each method is one SQL statement over the table `task_locks`, with its unique
-- index on (user_id, file_path) in database/init.sql.
pub mod Exclusion
use shipmates_oss.Prelude.{
  ℕ, ◌+◌, String, Bool, true, false, not, ◌&&◌, Option, List, [], ◌∷◌, ltb, leb, if◌then◌else◌,
  str_eq, select, exists, first, count,
}
use shipmates_oss.Store.Types.{TaskLock, Session}
use shipmates_oss.Store.World.{
  World, M, ok, statement, generate_id, now, wrapping, pure, ◌>>=◌, ◌>>◌,
}

-- WHERE user_id = $1 AND file_path = $2
abbrev pub locks_path : String → String → TaskLock → Bool
locks_path user_id file_path l = str_eq l.user_id user_id && str_eq l.file_path file_path

abbrev pub stale : String → String → ℕ → TaskLock → Bool
stale user_id file_path at l = locks_path user_id file_path l && ltb l.expires_at at

-- The statement's `WITH cleanup AS (DELETE …) INSERT … ON CONFLICT DO NOTHING`: PostgreSQL leaves the
-- order of its two parts open, so the first argument says whether the DELETE comes first.
unfoldable pub acquire_row : Bool → TaskLock → ℕ → List TaskLock → Bool × List TaskLock
acquire_row cleanup_first row at locks =
    let kept = select (λ l. not (stale row.user_id row.file_path at l)) locks in
    let taken =
      exists (locks_path row.user_id row.file_path) (if cleanup_first then kept else locks) in
    if taken then (false, kept) else (true, row ∷ kept)

abbrev pub run_locks : {A : Type 0} → (List TaskLock → A × List TaskLock) → M A
run_locks f w = let (a, locks) = f w.locks in (ok a, record w { locks = locks })

unfoldable pub acquire_task_lock : Bool → String → String → String → String → ℕ → M Bool
acquire_task_lock cleanup_first user_id session_id agent_id file_path duration = do
  id ← generate_id
  at ← now
  wrapping "acquire task lock" (
      statement (
        run_locks (
          acquire_row cleanup_first
            (record {
              id = id;
              user_id = user_id;
              session_id = session_id;
              agent_id = agent_id;
              file_path = file_path;
              locked_at = at;
              expires_at = at + duration;
            })
            at)))

-- DELETE FROM task_locks WHERE p
abbrev pub delete_locks : (TaskLock → Bool) → List TaskLock → Unit {0} × List TaskLock
delete_locks p locks = (tt, select (λ l. not (p l)) locks)

unfoldable pub release_task_lock : String → String → M (Unit {0})
release_task_lock user_id file_path =
    wrapping "release task lock"
      (statement (run_locks (delete_locks (locks_path user_id file_path))))

-- The locks of a session, if the session is the user's.
abbrev pub of_session : List Session → String → String → TaskLock → Bool
of_session sessions session_id user_id l =
    str_eq l.session_id session_id
    && str_eq l.user_id user_id
    && exists (λ s. str_eq s.id session_id && str_eq s.user_id user_id) sessions

unfoldable pub release_session_locks : String → String → M (Unit {0})
release_session_locks session_id user_id =
    wrapping "release session locks"
      (statement (λ w. run_locks (delete_locks (of_session w.sessions session_id user_id)) w))

-- ORDER BY locked_at DESC
abbrev pub insert_latest : TaskLock → List TaskLock → List TaskLock
insert_latest l [] = l ∷ []
insert_latest l (m ∷ ms) =
    let rest = insert_latest l ms in if leb m.locked_at l.locked_at then l ∷ m ∷ ms else m ∷ rest

abbrev pub latest_first : List TaskLock → List TaskLock
latest_first [] = []
latest_first (l ∷ ls) = insert_latest l (latest_first ls)

abbrev pub active : String → ℕ → TaskLock → Bool
active user_id at l = str_eq l.user_id user_id && ltb at l.expires_at

abbrev pub active_rows : String → ℕ → List TaskLock → List TaskLock × List TaskLock
active_rows user_id at locks = (latest_first (select (active user_id at) locks), locks)

unfoldable pub get_active_locks : String → M (List TaskLock)
get_active_locks user_id = do
  at ← now
  wrapping "get active locks" (statement (run_locks (active_rows user_id at)))

unfoldable pub get_lock_holder : String → String → M (Option TaskLock)
get_lock_holder user_id file_path = do
  at ← now
  wrapping "get lock holder" (
      statement (
        run_locks (λ locks. (
          first (select (λ l. locks_path user_id file_path l && ltb at l.expires_at) locks),
          locks,
        ))))

abbrev pub clean_rows : ℕ → List TaskLock → ℕ × List TaskLock
clean_rows at locks =
    (count (λ l. ltb l.expires_at at) locks, select (λ l. not (ltb l.expires_at at)) locks)

unfoldable pub clean_expired_locks : M ℕ
clean_expired_locks = do
  at ← now
  wrapping "clean expired locks" (statement (run_locks (clean_rows at)))

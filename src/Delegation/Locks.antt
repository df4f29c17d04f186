-- ===== src/Delegation/Locks.antt =====
-- bot/delegation/locks.go: a session claims the files that it will change.
pub mod Paths
pub mod Traversal
pub mod Latest
pub mod Granted
pub mod Unlocked
use shipmates_oss.Prelude.{
  String, ℕ, Bool, true, false, not, ◌&&◌, List, [], ◌∷◌, ltb, ◌==◌, if◌then◌else◌, str_eq, select,
  exists, length,
}
use shipmates_oss.Store.Types.{TaskLock}
use shipmates_oss.Store.World.{
  World, M, Result, ok, err, statement, attempt, wrapping, pure, ◌>>=◌, ◌>>◌,
}
use shipmates_oss.Store.Locks.{
  acquire_task_lock, release_session_locks, get_active_locks, clean_expired_locks, delete_locks,
  run_locks,
}
use Paths.{has_path_traversal}

-- 30 * time.Minute, in milliseconds
abbrev pub lock_expiry_duration : ℕ
lock_expiry_duration = 1800000

abbrev pub max_files_per_lock : ℕ
max_files_per_lock = 100

pub record LockResult : Type 0 where
  pub acquired : Bool
  pub conflicting : List String

abbrev pub refused : List String → LockResult
refused paths = record { acquired = false; conflicting = paths }

abbrev pub granted : LockResult
granted = record { acquired = true; conflicting = [] }

abbrev pub sanitize : List String → List String
sanitize = select (λ path. not (has_path_traversal path))

-- The paths that are in the map of the locks of other sessions.
abbrev pub held_by_others : String → List TaskLock → String → Bool
held_by_others session_id existing path =
    exists (λ l. not (str_eq l.session_id session_id) && str_eq l.file_path path) existing

abbrev pub conflicts : String → List TaskLock → List String → List String
conflicts session_id existing = select (held_by_others session_id existing)

-- DELETE FROM task_locks WHERE session_id = $1
unfoldable pub drop_session_locks : String → M (Unit {0})
drop_session_locks session_id =
    statement (run_locks (delete_locks (λ l. str_eq l.session_id session_id)))

module _ (cleanup_first : Bool) (user_id session_id agent_id : String)
    (sanitized : List String) where
  -- What a recheck makes of the locks, and the rest of the loop.
  abbrev pub after_recheck : String → M LockResult → Result (List TaskLock) → M LockResult
  after_recheck path rest (err e) = pure (refused (path ∷ []))
  after_recheck path rest (ok existing) = elim (conflicts session_id existing sanitized) [
    | [] ↦ rest
    | c ∷ cs ↦ do attempt (drop_session_locks session_id); pure (refused (c ∷ cs))
  ]

  abbrev pub after_acquire : String → M LockResult → Result Bool → M LockResult
  after_acquire path rest (err e) = rest
  after_acquire path rest (ok true) = rest
  after_acquire path rest (ok false) = do
    recheck ← attempt (get_active_locks user_id)
    after_recheck path rest recheck

  -- The loop over the sanitized paths.
  unfoldable pub acquire_locks : List String → M LockResult
  acquire_locks [] = pure granted
  acquire_locks (path ∷ paths) = do
    got ←
        attempt
          (acquire_task_lock cleanup_first user_id session_id agent_id path lock_expiry_duration)
    after_acquire path (acquire_locks paths) got

abbrev pub unless_conflicting : List String → M LockResult → M LockResult
unless_conflicting [] rest = rest
unless_conflicting (c ∷ cs) rest = pure (refused (c ∷ cs))

abbrev pub claim_sanitized : Bool → String → String → String → List String → M LockResult
claim_sanitized cleanup_first user_id session_id agent_id sanitized = do
  attempt clean_expired_locks
  existing ← wrapping "get active locks" (get_active_locks user_id)
  unless_conflicting (conflicts session_id existing sanitized)
      (acquire_locks cleanup_first user_id session_id agent_id sanitized sanitized)

unfoldable pub claim_locks : Bool → String → String → String → List String → M LockResult
claim_locks cleanup_first user_id session_id agent_id [] = pure granted
claim_locks cleanup_first user_id session_id agent_id (p ∷ ps) =
    let paths = p ∷ ps in
    if ltb max_files_per_lock (length paths)
    then pure (refused ("exceeds max lockable files (100)" ∷ []))
    else if not (length (sanitize paths) == length paths)
    then pure (refused ("invalid file paths detected" ∷ []))
    else claim_sanitized cleanup_first user_id session_id agent_id (sanitize paths)

unfoldable pub release_locks : String → String → M (Unit {0})
release_locks session_id user_id = release_session_locks session_id user_id

abbrev pub locked_files : List TaskLock → List String → List String
locked_files existing = select (λ path. exists (λ l. str_eq l.file_path path) existing)

abbrev pub is_nonempty : List String → Bool
is_nonempty [] = false
is_nonempty (x ∷ xs) = true

abbrev pub check_sanitized : String → List String → M (Bool × List String)
check_sanitized user_id [] = pure (false, [])
check_sanitized user_id (p ∷ ps) = do
  attempt clean_expired_locks
  existing ← wrapping "get active locks" (get_active_locks user_id)
  pure (is_nonempty (locked_files existing (p ∷ ps)), locked_files existing (p ∷ ps))

-- With no file path at all the sanitized list is empty too.
unfoldable pub check_locks : String → List String → M (Bool × List String)
check_locks user_id [] = pure (false, [])
check_locks user_id (p ∷ ps) = check_sanitized user_id (sanitize (p ∷ ps))

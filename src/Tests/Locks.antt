-- ===== src/Tests/Locks.antt =====
-- File locks: two sessions, a few paths.
use shipmates_oss.Prelude.{
  String, ◌≡◌, ◌≢◌, refl, true, false, List, [], ◌∷◌, ◌||◌, inl, All, In, exists, replicate, ◌++◌,
  arith,
}
use shipmates_oss.Store.Types.{TaskLock}
use shipmates_oss.Store.World.{World, statement, runs, fails}
use shipmates_oss.Store.Locks.{acquire_task_lock, clean_expired_locks, get_active_locks, locks_path}
use shipmates_oss.Store.Locks.Exclusion.{
  IsUnique, LockCall, acquires, cleans, reads, lock_step, lock_run, lock_run-IsUnique,
  lock_excludes,
}
use shipmates_oss.Delegation.Locks.{claim_locks}
use shipmates_oss.Prelude.Bytes.{codes, contains, has_prefix}
use shipmates_oss.Delegation.Locks.Paths.{has_path_traversal, normalize, is_dot_dot, split_slash}
use shipmates_oss.Delegation.Locks.Traversal.{has_path_traversal_exact}
use shipmates_oss.Delegation.Locks.Granted.{AllOrNothing, still, claim_locks-AllOrNothing}
use shipmates_oss.Delegation.Locks.Unlocked.{GrantedUnlocked, doomed, claim_locks_unlocked}
use shipmates_oss.Tests.Tasks.{with_tasks}

abbrev lock : TaskLock
lock = record {
  id = "l1";
  user_id = "u";
  session_id = "s1";
  agent_id = "ann";
  file_path = "src/a.go";
  locked_at = 50;
  expires_at = 5000;
}

abbrev locked : World
locked = record (with_tasks []) { locks = lock ∷ [] }

-- Another session tries the locked path, and then a free one.
abbrev calls : List LockCall
calls =
    acquires true "u" "s2" "bob" "src/a.go" 1000
    ∷ acquires false "u" "s2" "bob" "src/b.go" 1000
    ∷ cleans
    ∷ reads "u"
    ∷ []

lock_run-IsUnique_example : IsUnique (lock_run locked calls).locks
lock_run-IsUnique_example = lock_run-IsUnique locked calls (tt, tt)

end_of_calls : (lock_run locked calls).clock ≡ 105
unfolding lock_run lock_step acquire_task_lock clean_expired_locks get_active_locks statement
end_of_calls = refl

lock_excludes_example :
    In lock (lock_run locked calls).locks
    × ((m : TaskLock)
        → In m (lock_run locked calls).locks
        → locks_path "u" "src/a.go" m ≡ true
        → m ≡ lock)
lock_excludes_example =
    lock_excludes locked calls lock (tt, tt) (inl refl) (refl, (refl, (refl, (refl, tt))))
      (rw end_of_calls (omega arith))

abbrev climbing : String
climbing = "src\\..\\etc"

climbs : has_path_traversal climbing ≡ true
unfolding has_path_traversal
climbs = refl

has_path_traversal_exact_example : has_path_traversal climbing ≡ (
    contains (normalize (codes climbing)) (0 ∷ [])
    || (has_prefix (normalize (codes climbing)) (47 ∷ [])
        || exists is_dot_dot (split_slash (normalize (codes climbing)))))
has_path_traversal_exact_example = has_path_traversal_exact climbing

abbrev paths : List String
paths = "src/b.go" ∷ "src/c.go" ∷ []

paths_stay : All (λ q. has_path_traversal q ≡ false) paths
unfolding has_path_traversal
paths_stay = (refl, (refl, tt))

not_now : lock.expires_at ≢ 100
not_now e = let h : 5000 ≡ 100 = e in absurd (omega (arith, h))

some_path : paths ≢ []
some_path e = cc

claim_locks-AllOrNothing_example : AllOrNothing "u" "s2" paths [] (lock ∷ []) (
    claim_locks true "u" "s2" "bob" paths
      (still (with_tasks []) 100 (lock ∷ []) ("l2" ∷ "l3" ∷ [])))
claim_locks-AllOrNothing_example =
    claim_locks-AllOrNothing true "u" "s2" "bob" paths (with_tasks []) 100 (lock ∷ [])
      ("l2" ∷ "l3" ∷ []) some_path (omega arith) paths_stay (not_now, tt)

claim_locks_unlocked_example : GrantedUnlocked (
    claim_locks true "u" "s2" "bob" paths
      (doomed (with_tasks []) (runs 1 ∷ runs 1 ∷ (replicate 2 fails ++ [])) 100 []))
claim_locks_unlocked_example =
    claim_locks_unlocked true "u" "s2" "bob" "src/b.go" ("src/c.go" ∷ []) (with_tasks []) 1 1 [] 100
      [] (omega arith) paths_stay

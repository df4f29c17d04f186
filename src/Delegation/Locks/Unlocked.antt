-- ===== src/Delegation/Locks/Unlocked.antt =====
-- A claim whose INSERTs fail (bot/delegation/locks.go): ClaimLocks logs the error and goes on.
use shipmates_oss.Prelude.{
  ℕ, Bool, ◌+◌, ◌≤◌, String, ◌≡◌, refl, false, List, [], ◌∷◌, ◌++◌, sym, All, length, replicate,
  select_empty, In-All, subst,
}
use shipmates_oss.Store.World.{World, Turn, fails, runs, ok, Result, statement}
use shipmates_oss.Store.Locks.{acquire_task_lock, get_active_locks, clean_expired_locks}
use shipmates_oss.Delegation.Locks.Paths.{has_path_traversal}
use shipmates_oss.Delegation.Locks.{
  LockResult, granted, acquire_locks, claim_sanitized, claim_locks, conflicts, unless_conflicting,
}
use shipmates_oss.Delegation.Locks.Granted.{claim_locks_accepted}

-- What the theorem says of a run: granted, with no lock in the table.
abbrev pub GrantedUnlocked : Result LockResult × World → Type 0
GrantedUnlocked r = (r.0 ≡ ok granted) × (r.1.locks ≡ [])

-- The next statements of the loop all fail.
abbrev pub doomed : World → List Turn → ℕ → List String → World
doomed w ts c ids = record w { locks = []; turns = ts; clock = c; fresh_ids = ids }

acquire_locks_fails :
    (cf : Bool) (user session agent : String) (sanitized qs : List String) (w : World)
    (rest : List Turn) (c : ℕ) (ids : List String)
    → GrantedUnlocked (
        acquire_locks cf user session agent sanitized qs
          (doomed w (replicate (length qs) fails ++ rest) c ids))
unfolding acquire_locks acquire_task_lock statement
acquire_locks_fails cf user session agent sanitized [] w rest c ids = (refl, refl)
acquire_locks_fails cf user session agent sanitized (q ∷ qs) w rest c ids =
    acquire_locks_fails cf user session agent sanitized qs w rest c _

-- With an empty table no path conflicts.
claim_sanitized_fails :
    (cf : Bool) (user session agent : String) (qs : List String) (w : World) (a b : ℕ)
    (rest : List Turn) (c : ℕ) (ids : List String)
    → GrantedUnlocked (
        claim_sanitized cf user session agent qs
          (doomed w (runs a ∷ runs b ∷ (replicate (length qs) fails ++ rest)) c ids))
unfolding clean_expired_locks get_active_locks statement
claim_sanitized_fails cf user session agent qs w a b rest c ids =
    let none : conflicts session [] qs ≡ [] = select_empty _ qs (In-All _ qs (λ q m. refl)) in
    subst
      (λ ks. GrantedUnlocked (
        unless_conflicting ks (acquire_locks cf user session agent qs qs)
          (doomed w (replicate (length qs) fails ++ rest) (c + a + b) ids)))
      (sym none) (acquire_locks_fails cf user session agent qs qs w rest (c + a + b) ids)

-- Where the clean-up and the query run and then every INSERT fails, a claim of acceptable paths over an
-- empty lock table is still reported as granted, and the table holds no lock.
pub claim_locks_unlocked :
    (cf : Bool) (user session agent : String) (q : String) (qs : List String) (w : World) (a b : ℕ)
    (rest : List Turn) (c : ℕ) (ids : List String)
    → length (q ∷ qs) ≤ 100
    → All (λ p. has_path_traversal p ≡ false) (q ∷ qs)
    → GrantedUnlocked (
        claim_locks cf user session agent
          (q ∷ qs)
          (doomed w (runs a ∷ runs b ∷ (replicate (length (q ∷ qs)) fails ++ rest)) c ids))
claim_locks_unlocked cf user session agent q qs w a b rest c ids few clean =
    subst GrantedUnlocked (claim_locks_accepted cf user session agent q qs _ few clean)
      (claim_sanitized_fails cf user session agent (q ∷ qs) w a b rest c ids)

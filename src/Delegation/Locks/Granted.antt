-- ===== src/Delegation/Locks/Granted.antt =====
-- What ClaimLocks (bot/delegation/locks.go) leaves in the table when no statement fails and the clock
-- stands still.
use shipmates_oss.Prelude.{
  ℕ, ◌+◌, ◌≤◌, ◌<◌, String, ◌≡◌, ◌≢◌, ◌⊎◌, inl, inr, refl, sym, ◌∙◌, subst, Bool, true, false, not,
  ◌&&◌, List, [], ◌∷◌, arith, ltb, if◌then◌else◌, str_eq, select, exists, In, In-select, select-In,
  All, All-In, In-All, Bool-cases, exists-In, exists-witness, str_eq_refl, str_eq→eq, eq_iff,
  length, ◌==◌, ==_iff, select-All, select_empty, empty_select,
}
use shipmates_oss.Store.Types.{TaskLock}
use shipmates_oss.Store.World.{World, M, statement, ok, next_id, other_ids, attempt, ◌>>=◌, Result}
use shipmates_oss.Store.Locks.{
  locks_path, stale, acquire_row, acquire_task_lock, active, active_rows, get_active_locks,
  latest_first, clean_rows, clean_expired_locks,
}
use shipmates_oss.Delegation.Locks.Paths.{has_path_traversal}
use shipmates_oss.Delegation.Locks.{
  max_files_per_lock, LockResult, granted, refused, sanitize, held_by_others, conflicts,
  acquire_locks, after_acquire, after_recheck, unless_conflicting, claim_sanitized, claim_locks,
  lock_expiry_duration,
}
use shipmates_oss.Delegation.Locks.Latest.{latest_first-In, In-latest_first}

-- A world in which no statement fails and the clock stands still.
abbrev pub still : World → ℕ → List TaskLock → List String → World
still w c locks ids = record w { turns = []; clock = c; locks = locks; fresh_ids = ids }

module _ (cf : Bool) (user session agent : String) (qs : List String) (c : ℕ) where
  -- A lock that has time left, and on the claimed paths is the session's.
  record Fine (l : TaskLock) : Type 0 where
    lives : c < l.expires_at
    ours : (q : String) → In q qs → locks_path user q l ≡ true → l.session_id ≡ session

  existing_of : List TaskLock → List TaskLock
  existing_of ls = (active_rows user c ls).0

  -- Fine locks do not conflict.
  Fine-held_by_others :
      (ls : List TaskLock)
      → All Fine ls
      → (q : String) → In q qs
      → held_by_others session (existing_of ls) q ≡ false
  unfolding existing_of
  Fine-held_by_others ls f q m = elim (Bool-cases (held_by_others session (existing_of ls) q)) [
    | inr e ↦ e
    | inl e ↦
        let (l, ml, t) = exists-witness _ (existing_of ls) e in
        let (here, test) = select-In (active user c) ls (latest_first-In l _ ml) in
        let fine = All-In Fine ls f here in
        let same : l.session_id ≡ session = fine.ours q m (ground arith) in
        absurd (ground (arith, eq_iff l.session_id session))
  ]

  Fine-conflicts : (ls : List TaskLock) → All Fine ls → conflicts session (existing_of ls) qs ≡ []
  Fine-conflicts ls f = select_empty _ qs (In-All _ qs (Fine-held_by_others ls f))

  -- Locks with time left that do not conflict are fine.
  conflicts-Fine :
      (ls : List TaskLock)
      → All (λ l. c < l.expires_at) ls
      → conflicts session (existing_of ls) qs ≡ []
      → All Fine ls
  unfolding existing_of
  conflicts-Fine ls lives none = In-All Fine ls λ l m. record {
    lives = All-In (λ l. c < l.expires_at) ls lives m;
    ours = λ q mq here. elim (Bool-cases (str_eq l.session_id session)) [
      | inl e ↦ str_eq→eq _ _ e
      | inr e ↦
          let living = All-In (λ l. c < l.expires_at) ls lives m in
          let seen : In l (latest_first (select (active user c) ls)) =
            In-latest_first l _ (In-select (active user c) ls m (ground arith)) in
          let clash =
            exists-In (λ k. not (str_eq k.session_id session) && str_eq k.file_path q) _ seen
              (ground arith) in
          let free =
            All-In (λ z. held_by_others session (existing_of ls) z ≡ false) qs
              (empty_select _ qs none) mq in
          absurd (cc)
    ];
  }

  Held : List TaskLock → String → Type 0
  Held ls q =
      exists (λ l. locks_path user q l && (str_eq l.session_id session && ltb c l.expires_at)) ls
      ≡ true

  -- Among fine locks nothing is stale, so the order of the two parts of the statement is no matter.
  acquire_row-Fine :
      (row : TaskLock) (ls : List TaskLock)
      → All Fine ls
      → acquire_row cf row c ls ≡ (
          if exists (locks_path row.user_id row.file_path) ls
          then (false, ls)
          else (true, row ∷ ls))
  unfolding acquire_row
  acquire_row-Fine row ls f =
      let kept : select (λ l. not (stale row.user_id row.file_path c l)) ls ≡ ls =
        select-All _ ls (In-All _ ls (λ l m. fresh l (All-In Fine ls f m).lives)) in
      both cf kept
    where
      fresh : (l : TaskLock) → c < l.expires_at → not (stale row.user_id row.file_path c l) ≡ true
      fresh l h = ground arith

      both :
          (first : Bool)
          → select (λ l. not (stale row.user_id row.file_path c l)) ls ≡ ls
          → acquire_row first row c ls ≡ (
              if exists (locks_path row.user_id row.file_path) ls
              then (false, ls)
              else (true, row ∷ ls))
      both true e = rw e
      both false e = rw e

  -- A lock on a claimed path among fine locks is the session's, and lives.
  Fine-Held :
      (ls : List TaskLock) (q : String)
      → All Fine ls
      → In q qs
      → exists (locks_path user q) ls ≡ true
      → Held ls q
  unfolding Held
  Fine-Held ls q f m h =
      let (l, ml, e) = exists-witness (locks_path user q) ls h in
      let fine = All-In Fine ls f ml in
      let same : l.session_id ≡ session = fine.ours q m e in
      let living : c < l.expires_at = fine.lives in
      exists-In _ ls ml (ground (arith, eq_iff l.session_id session))

  record Loops (w : World) (ps : List String) (ls : List TaskLock) (ids : List String)
      : Type 0 where
    locks : List TaskLock
    new_ids : List String
    runs :
        acquire_locks cf user session agent qs ps (still w c ls ids)
        ≡ (ok granted, still w c locks new_ids)
    fine : All Fine locks
    holds : (q : String) → In q ps → Held locks q
    keeps : (q : String) → Held ls q → Held locks q

  row_for : List String → String → TaskLock
  row_for ids p = record {
    id = next_id ids;
    user_id = user;
    session_id = session;
    agent_id = agent;
    file_path = p;
    locked_at = c;
    expires_at = c + lock_expiry_duration;
  }

  Held-cons : (row : TaskLock) (ls : List TaskLock) (q : String) → Held ls q → Held (row ∷ ls) q
  unfolding Held
  Held-cons row ls q h = rw h (ground arith)

  Held-row_for : (ids : List String) (p : String) (ls : List TaskLock) → Held (row_for ids p ∷ ls) p
  unfolding Held row_for
  Held-row_for ids p ls = rw (str_eq_refl user, str_eq_refl p, str_eq_refl session) (ground arith)

  Fine-row_for : (ids : List String) (p : String) → Fine (row_for ids p)
  unfolding row_for
  Fine-row_for ids p = record { lives = omega arith; ours = λ q m h. refl }

  acquire_still :
      (w : World) (p : String) (ls : List TaskLock) (ids : List String)
      → let r = acquire_row cf (row_for ids p) c ls in
        acquire_task_lock cf user session agent p lock_expiry_duration (still w c ls ids)
        ≡ (ok r.0, still w c r.1 (other_ids ids))
  unfolding acquire_task_lock statement row_for
  acquire_still w p ls ids = refl

  read_still :
      (w : World) (ls : List TaskLock) (ids : List String)
      → get_active_locks user (still w c ls ids) ≡ (ok (existing_of ls), still w c ls ids)
  unfolding get_active_locks statement existing_of
  read_still w ls ids = refl

  -- One round of the loop, on a path that is locked already and on one that is not.
  round_taken :
      (w : World) (p : String) (ls : List TaskLock) (ids : List String) (rest : M LockResult)
      → All Fine ls
      → exists (locks_path user p) ls ≡ true
      → (attempt (acquire_task_lock cf user session agent p lock_expiry_duration)
            >>= after_acquire cf user session agent qs p rest)
          (still w c ls ids)
        ≡ rest (still w c ls (other_ids ids))
  round_taken w p ls ids rest f e =
      let taken : acquire_row cf (row_for ids p) c ls ≡ (false, ls) =
        acquire_row-Fine (row_for ids p) ls f ∙ (unfold row_for in rw e) in
      rw (acquire_still w p ls ids, taken, read_still w ls (other_ids ids))
        (rw (Fine-conflicts ls f, after_recheck))

  round_free :
      (w : World) (p : String) (ls : List TaskLock) (ids : List String) (rest : M LockResult)
      → All Fine ls
      → exists (locks_path user p) ls ≡ false
      → (attempt (acquire_task_lock cf user session agent p lock_expiry_duration)
            >>= after_acquire cf user session agent qs p rest)
          (still w c ls ids)
        ≡ rest (still w c (row_for ids p ∷ ls) (other_ids ids))
  round_free w p ls ids rest f e =
      let free : acquire_row cf (row_for ids p) c ls ≡ (true, row_for ids p ∷ ls) =
        acquire_row-Fine (row_for ids p) ls f ∙ (unfold row_for in rw e) in
      rw (acquire_still w p ls ids, free)

  acquire_locks-Loops :
      (w : World) (ps : List String)
      → ((q : String) → In q ps → In q qs)
      → (ls : List TaskLock) (ids : List String) → All Fine ls
      → Loops w ps ls ids
  unfolding acquire_locks
  acquire_locks-Loops w [] among ls ids f = record {
    locks = ls;
    new_ids = ids;
    runs = refl;
    fine = f;
    holds = λ q m. elim m [ ];
    keeps = λ q h. h;
  }
  acquire_locks-Loops w (p ∷ ps) among ls ids f =
      elim (Bool-cases (exists (locks_path user p) ls)) [
        | inl e ↦
            let rest = acquire_locks-Loops w ps (λ q m. among q (inr m)) ls (other_ids ids) f in
            record {
              locks = rest.locks;
              new_ids = rest.new_ids;
              runs = round_taken w p ls ids _ f e ∙ rest.runs;
              fine = rest.fine;
              holds = λ q m. elim m [
                | inl p' ↦
                    subst (Held rest.locks) (sym p')
                      (rest.keeps p (Fine-Held ls p f (among p (inl refl)) e))
                | inr m' ↦ rest.holds q m'
              ];
              keeps = rest.keeps;
            }
        | inr e ↦
            let row = row_for ids p in
            let rest =
              acquire_locks-Loops w ps (λ q m. among q (inr m)) (row ∷ ls) (other_ids ids)
                (Fine-row_for ids p, f) in
            record {
              locks = rest.locks;
              new_ids = rest.new_ids;
              runs = round_free w p ls ids _ f e ∙ rest.runs;
              fine = rest.fine;
              holds = λ q m. elim m [
                | inl p' ↦ subst (Held rest.locks) (sym p') (rest.keeps p (Held-row_for ids p ls))
                | inr m' ↦ rest.holds q m'
              ];
              keeps = λ q h. rest.keeps q (Held-cons row ls q h);
            }
      ]

-- The session has a lock with time left on the path.
abbrev pub HasLock : String → String → World → String → Type 0
HasLock user session w path =
    exists
      (λ l. locks_path user path l && (str_eq l.session_id session && ltb w.clock l.expires_at))
      w.locks
    ≡ true

clean_still :
    (w : World) (c : ℕ) (ls : List TaskLock) (ids : List String)
    → let r = clean_rows c ls in
      clean_expired_locks (still w c ls ids) ≡ (ok r.0, still w c r.1 ids)
unfolding clean_expired_locks statement
clean_still w c ls ids = refl

cleaned_lives :
    (c : ℕ) (ls : List TaskLock)
    → All (λ l. l.expires_at ≢ c) ls
    → All (λ l. c < l.expires_at) (clean_rows c ls).1
cleaned_lives c ls h = In-All _ (clean_rows c ls).1 λ l m.
    let (here, test) = select-In (λ k. not (ltb k.expires_at c)) ls m in
    let ne = All-In (λ k. k.expires_at ≢ c) ls h here in ground arith

-- Either every path is locked, or the conflicts are reported and only expired locks are gone.
abbrev pub AllOrNothing :
    String → String → List String → List String → List TaskLock → Result LockResult × World → Type 0
AllOrNothing user session qs conflicting kept r =
    ((r.0 ≡ ok granted) × All (HasLock user session r.1) qs)
    ⊎ ((r.0 ≡ ok (refused conflicting)) × (r.1.locks ≡ kept))

claim_sanitized_lem :
    (cf : Bool) (user session agent : String) (qs : List String) (w : World) (c : ℕ)
    (ls : List TaskLock) (ids : List String)
    → let kept = (clean_rows c ls).1 in
      claim_sanitized cf user session agent qs (still w c ls ids)
      ≡ unless_conflicting
          (conflicts session (active_rows user c kept).0 qs)
          (acquire_locks cf user session agent qs qs)
          (still w c kept ids)
unfolding get_active_locks clean_expired_locks statement
claim_sanitized_lem cf user session agent qs w c ls ids = refl

-- What follows the search for conflicts, whichever it found.
unless_conflicting_cases :
    (cf : Bool) (user session agent : String) (qs : List String) (w : World) (c : ℕ)
    (ls : List TaskLock) (ids : List String)
    → All (λ l. c < l.expires_at) ls
    → (ks : List String) → conflicts session (active_rows user c ls).0 qs ≡ ks
    → AllOrNothing user session qs ks ls
        (unless_conflicting ks (acquire_locks cf user session agent qs qs) (still w c ls ids))
unless_conflicting_cases cf user session agent qs w c ls ids lives [] e =
    let fine = conflicts-Fine cf user session agent qs c ls lives (unfold existing_of in e) in
    let loop = acquire_locks-Loops cf user session agent qs c w qs (λ q m. m) ls ids fine in
    subst (AllOrNothing user session qs [] ls) (sym loop.runs)
      (inl (refl, In-All _ qs (unfold Held in loop.holds)))
unless_conflicting_cases cf user session agent qs w c ls ids lives (k ∷ ks) e = inr (refl, refl)

claim_sanitized-AllOrNothing :
    (cf : Bool) (user session agent : String) (qs : List String) (w : World) (c : ℕ)
    (ls : List TaskLock) (ids : List String)
    → All (λ l. l.expires_at ≢ c) ls
    → let kept = (clean_rows c ls).1 in
      AllOrNothing user session qs
        (conflicts session (active_rows user c kept).0 qs)
        kept
        (claim_sanitized cf user session agent qs (still w c ls ids))
claim_sanitized-AllOrNothing cf user session agent qs w c ls ids h =
    let kept = (clean_rows c ls).1 in
    let ks = conflicts session (active_rows user c kept).0 qs in
    subst (AllOrNothing user session qs ks kept)
      (sym (claim_sanitized_lem cf user session agent qs w c ls ids))
      (unless_conflicting_cases cf user session agent qs w c kept ids (cleaned_lives c ls h) ks
        refl)

-- Acceptable paths pass the checks at the head of ClaimLocks.
pub claim_locks_accepted :
    (cf : Bool) (user session agent : String) (q : String) (qs : List String) (w : World)
    → length (q ∷ qs) ≤ 100
    → All (λ p. has_path_traversal p ≡ false) (q ∷ qs)
    → claim_sanitized cf user session agent (q ∷ qs) w
      ≡ claim_locks cf user session agent (q ∷ qs) w
unfolding claim_locks
claim_locks_accepted cf user session agent q qs w few clean =
    let whole : sanitize (q ∷ qs) ≡ q ∷ qs =
      select-All _ (q ∷ qs) (In-All _ (q ∷ qs) (λ p m. passes p (All-In _ (q ∷ qs) clean m))) in
    let short : ltb max_files_per_lock (length (q ∷ qs)) ≡ false = ground arith in
    let same : (length (q ∷ qs) == length (q ∷ qs)) ≡ true = (==_iff _ (length (q ∷ qs))).1 refl in
    rw (short, whole, same)
  where
    passes : (p : String) → has_path_traversal p ≡ false → not (has_path_traversal p) ≡ true
    passes p h = rw h

-- A claim of at least one and at most a hundred paths, none of which traverses, made while no statement fails
-- and the clock stands still, over a table in which no lock expires at this very moment: either
-- it is granted, and the session has a lock with time left on every path, or it is refused with the
-- conflicting paths, and of the locks that were there just the expired ones are gone. It holds
-- for either order of the two parts of the acquiring statement.
pub claim_locks-AllOrNothing :
    (cf : Bool) (user session agent : String) (qs : List String) (w : World) (c : ℕ)
    (ls : List TaskLock) (ids : List String)
    → qs ≢ []
    → length qs ≤ 100
    → All (λ q. has_path_traversal q ≡ false) qs
    → All (λ l. l.expires_at ≢ c) ls
    → let kept = (clean_rows c ls).1 in
      AllOrNothing user session qs
        (conflicts session (active_rows user c kept).0 qs)
        kept
        (claim_locks cf user session agent qs (still w c ls ids))
unfolding claim_locks
claim_locks-AllOrNothing cf user session agent [] w c ls ids some_path few clean apart =
    absurd (some_path refl)
claim_locks-AllOrNothing cf user session agent (q ∷ qs) w c ls ids some_path few clean apart =
    let kept = (clean_rows c ls).1 in
    let ks = conflicts session (active_rows user c kept).0 (q ∷ qs) in
    subst (AllOrNothing user session (q ∷ qs) ks kept)
      (claim_locks_accepted cf user session agent q qs (still w c ls ids) few clean)
      (claim_sanitized-AllOrNothing cf user session agent (q ∷ qs) w c ls ids apart)

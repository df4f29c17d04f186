-- ===== src/Delegation/Locks/Latest.antt =====
-- The order in which GetActiveLocks (go-shared/task_locks.go) returns the locks keeps their members.
use shipmates_oss.Prelude.{inl, inr, List, [], ◌∷◌, In, Bool-cases, leb}
use shipmates_oss.Store.Types.{TaskLock}
use shipmates_oss.Store.Locks.{insert_latest, latest_first}

insert_latest-In : (l m : TaskLock) (ls : List TaskLock) → In m (insert_latest l ls) → In m (l ∷ ls)
insert_latest-In l m [] h = h
insert_latest-In l m (x ∷ xs) h = elim (Bool-cases (leb x.locked_at l.locked_at)) [
  | inl e ↦ rw e at h
  | inr e ↦
      let h' : In m (x ∷ insert_latest l xs) = rw e at h in
      elim h' [
        | inl p ↦ inr (inl p)
        | inr r ↦ elim (insert_latest-In l m xs r) [ inl p ↦ inl p | inr q ↦ inr (inr q) ]
      ]
]

In-insert_latest : (l m : TaskLock) (ls : List TaskLock) → In m (l ∷ ls) → In m (insert_latest l ls)
In-insert_latest l m [] h = h
In-insert_latest l m (x ∷ xs) h = elim (Bool-cases (leb x.locked_at l.locked_at)) [
  | inl e ↦ rw e h
  | inr e ↦ rw e (elim h [
    | inl p ↦ inr (In-insert_latest l m xs (inl p))
    | inr q ↦ elim q [ inl p ↦ inl p | inr r ↦ inr (In-insert_latest l m xs (inr r)) ]
  ])
]

pub latest_first-In : (m : TaskLock) (ls : List TaskLock) → In m (latest_first ls) → In m ls
latest_first-In m [] h = h
latest_first-In m (x ∷ xs) h = elim (insert_latest-In x m (latest_first xs) h) [
  | inl p ↦ inl p
  | inr r ↦ inr (latest_first-In m xs r)
]

pub In-latest_first : (m : TaskLock) (ls : List TaskLock) → In m ls → In m (latest_first ls)
In-latest_first m [] h = h
In-latest_first m (x ∷ xs) (inl p) = In-insert_latest x m (latest_first xs) (inl p)
In-latest_first m (x ∷ xs) (inr r) =
    In-insert_latest x m (latest_first xs) (inr (In-latest_first m xs r))

-- ===== src/Relay/Hub/Rooms.antt =====
-- The sets of subscribers of the sessions (stream-relay/relay/hub.go), as they gain and lose a pointer.
use shipmates_oss.Prelude.{
  ℕ, ◌+◌, ◌<◌, ◌≡◌, refl, subst, inl, inr, String, Bool, true, false, not, List, [], ◌∷◌, ◌==◌,
  str_eq, select, exists, length, All, All-imp, All-select, Bool-cases, if_cases, ==_iff, arith,
}
use shipmates_oss.Relay.Hub.{Room, subs_of, add_sub, remove_sub, keep_nonempty, is_sub, sum_subs}

-- A set of pointers that were allocated, without repetitions.
abbrev pub IsPointers : ℕ → List ℕ → Type 0
IsPointers next [] = Unit
IsPointers next (p ∷ ps) = (p < next) × All (λ q. (q == p) ≡ false) ps × IsPointers next ps

abbrev pub IsRoom : ℕ → Room → Type 0
IsRoom next m = (0 < length m.subs) × IsPointers next m.subs

older : (n : ℕ) (ps : List ℕ) → IsPointers n ps → IsPointers (n + 1) ps
older n [] h = tt
older n (p ∷ ps) h = (omega (arith, h.0), h.1, older n ps h.2)

fresh_apart : (n : ℕ) (ps : List ℕ) → IsPointers n ps → All (λ q. (q == n) ≡ false) ps
fresh_apart n [] h = tt
fresh_apart n (p ∷ ps) h = (ground (arith, h.0), fresh_apart n ps h.2)

older_room : (n : ℕ) (m : Room) → IsRoom n m → IsRoom (n + 1) m
older_room n m r = (r.0, older n m.subs r.1)

pub add_sub-All :
    (s : String) (n : ℕ) (ms : List Room)
    → All (IsRoom n) ms
    → All (IsRoom (n + 1)) (add_sub s n ms)
unfolding add_sub
add_sub-All s n [] h = ((omega arith, (omega arith, tt, tt)), tt)
add_sub-All s n (m ∷ ms) h =
    let joined : IsRoom (n + 1) (record m { subs = n ∷ m.subs }) =
      (omega arith, (omega arith, fresh_apart n m.subs h.0.1, older n m.subs h.0.1)) in
    let others = All-imp (IsRoom n) (IsRoom (n + 1)) ms (older_room n) h.1 in
    if_cases (All (IsRoom (n + 1))) (str_eq m.session_id s) _ _ (λ e. (joined, others))
      (λ e. (older_room n m h.0, add_sub-All s n ms h.1))

pub add_sub_sum :
    (s : String) (n : ℕ) (ms : List Room) → sum_subs (add_sub s n ms) ≡ sum_subs ms + 1
unfolding add_sub
add_sub_sum s n [] = refl
add_sub_sum s n (m ∷ ms) =
    if_cases (λ rs. sum_subs rs ≡ sum_subs (m ∷ ms) + 1) (str_eq m.session_id s) _ _
      (λ e. omega arith) (λ e. omega (arith, add_sub_sum s n ms))

-- Removing a pointer from a set takes at most one, and just if it is there.
select_apart :
    (p : ℕ) (ps : List ℕ) → All (λ q. (q == p) ≡ false) ps → select (λ q. not (q == p)) ps ≡ ps
select_apart p [] h = refl
select_apart p (q ∷ ps) h = rw (h.0, select_apart p ps h.1)

exists_apart :
    (p : ℕ) (ps : List ℕ) → All (λ q. (q == p) ≡ false) ps → exists (λ q. q == p) ps ≡ false
exists_apart p [] h = refl
exists_apart p (q ∷ ps) h = rw (h.0, exists_apart p ps h.1)

apart_select :
    (p r : ℕ) (ps : List ℕ)
    → All (λ q. (q == r) ≡ false) ps
    → All (λ q. (q == r) ≡ false) (select (λ q. not (q == p)) ps)
apart_select p r ps h = All-select (λ q. (q == r) ≡ false) (λ q. not (q == p)) ps h

select-IsPointers :
    (n p : ℕ) (ps : List ℕ) → IsPointers n ps → IsPointers n (select (λ q. not (q == p)) ps)
select-IsPointers n p [] h = tt
select-IsPointers n p (q ∷ ps) h =
    if_cases (IsPointers n) (not (q == p)) _ _
      (λ e. (h.0, apart_select p q ps h.1, select-IsPointers n p ps h.2))
      (λ e. select-IsPointers n p ps h.2)

abbrev pub one_if : Bool → ℕ
one_if true = 1
one_if false = 0

length-select_one :
    (n p : ℕ) (ps : List ℕ)
    → IsPointers n ps
    → length (select (λ q. not (q == p)) ps) + one_if (exists (λ q. q == p) ps) ≡ length ps
length-select_one n p [] h = refl
length-select_one n p (q ∷ ps) h = elim (Bool-cases (q == p)) [
  | inl e ↦
      let same : q ≡ p = (==_iff q p).0 e in
      let apart : All (λ r. (r == p) ≡ false) ps =
        subst (λ x. All (λ r. (r == x) ≡ false) ps) same h.1 in
      rw (e, select_apart p ps apart) (omega arith)
  | inr e ↦ rw e (omega (arith, length-select_one n p ps h.2))
]

keep_nonempty_sum :
    (m : Room) (ms : List Room) → sum_subs (keep_nonempty m ms) ≡ length m.subs + sum_subs ms
keep_nonempty_sum m ms =
    if_cases (λ rs. sum_subs rs ≡ length m.subs + sum_subs ms) (length m.subs == 0) _ _
      (λ e. ground (arith, e)) (λ e. refl)

pub remove_sub_sum :
    (n : ℕ) (s : String) (p : ℕ) (ms : List Room)
    → All (IsRoom n) ms
    → sum_subs (remove_sub s p ms) + one_if (is_sub s p ms) ≡ sum_subs ms
unfolding remove_sub subs_of
remove_sub_sum n s p [] h = refl
remove_sub_sum n s p (m ∷ ms) h = elim (Bool-cases (str_eq m.session_id s)) [
  | inl e ↦
      rw (e, keep_nonempty_sum (record m { subs = select (λ q. not (q == p)) m.subs }) ms)
        (omega (arith, length-select_one n p m.subs h.0.1))
  | inr e ↦ rw e (omega (arith, remove_sub_sum n s p ms h.1))
]

keep_nonempty-All :
    (n : ℕ) (m : Room) (ms : List Room)
    → IsPointers n m.subs
    → All (IsRoom n) ms
    → All (IsRoom n) (keep_nonempty m ms)
keep_nonempty-All n m ms h hs =
    if_cases (All (IsRoom n)) (length m.subs == 0) _ _ (λ e. hs)
      (λ e. let r : IsRoom n m = (ground (arith, e), h) in (r, hs))

pub remove_sub-All :
    (n : ℕ) (s : String) (p : ℕ) (ms : List Room)
    → All (IsRoom n) ms
    → All (IsRoom n) (remove_sub s p ms)
unfolding remove_sub
remove_sub-All n s p [] h = tt
remove_sub-All n s p (m ∷ ms) h =
    if_cases (All (IsRoom n)) (str_eq m.session_id s) _ _
      (λ e.
        keep_nonempty-All n (record m { subs = select (λ q. not (q == p)) m.subs }) ms
          (select-IsPointers n p m.subs h.0.1) h.1)
      (λ e. (h.0, remove_sub-All n s p ms h.1))

-- ===== src/Webhook/Limits/Window.antt =====
-- How many requests of an address pass in a window (webhook-router/main.go).
use shipmates_oss.Prelude.{
  ℕ, ◌+◌, ◌≤◌, ◌<◌, ◌≡◌, refl, sym, ap, ◌∙◌, subst, not, ◌&&◌, ◌||◌, &&→both, inl, inr, Bool, true,
  false, List, [], ◌∷◌, ◌++◌, append-nil, append_assoc, select, exists, count, length, leb, ltb,
  if◌then◌else◌, Bool-cases, All, All-select, length-select-le, length-append, arith,
}
use shipmates_oss.Prelude.Bytes.{Bytes, bytes_eq}
use shipmates_oss.Prelude.Prefixes.{bytes_eq_refl, bytes_eq→eq}
use shipmates_oss.Webhook.Limits.{
  IpRateLimiter, Limits, is_recent, timestamps_of, without, store, new_window, check_ip,
  check_rate_limit, Running, has_limiter, all_expired, test_limiter, without_first, delete_limiter,
  Event, request, tests, deletes, step, start,
}

-- The times at which requests of an address pass.
abbrev pub passed : Bytes → Event → Running → List ℕ
passed ip (request from now) s =
    if bytes_eq from ip
    then (if (check_rate_limit from now s.limits).0 then now ∷ [] else [])
    else []
passed ip (tests started k) s = []
passed ip (deletes k) s = []

abbrev pub all_passed : Bytes → List Event → Running → List ℕ
all_passed ip [] s = []
all_passed ip (e ∷ es) s = passed ip e s ++ all_passed ip es (step e s)

-- The clock does not go back, a cleanup goes by a time that was, and no request of an address comes between the test
-- of its limiter and the deletion that follows.
abbrev pub IsOrdered : ℕ → List Event → ℕ → Running → Type 0
IsOrdered t [] end s = t ≤ end
IsOrdered t (request ip now ∷ es) end s =
    (t ≤ now)
    × (exists (bytes_eq ip) s.doomed ≡ false)
    × IsOrdered now es end (step (request ip now) s)
IsOrdered t (tests started k ∷ es) end s =
    (started ≤ t) × IsOrdered t es end (step (tests started k) s)
IsOrdered t (deletes k ∷ es) end s = IsOrdered t es end (step (deletes k) s)

count-append :
    {A : Type 0} (p : A → Bool) (xs ys : List A) → count p (xs ++ ys) ≡ count p xs + count p ys
count-append p [] ys = omega arith
count-append p (x ∷ xs) ys = let h = count-append p xs ys in omega (arith, h)

count_le : {A : Type 0} (p : A → Bool) (xs : List A) → count p xs ≤ length xs
count_le p [] = omega arith
count_le p (x ∷ xs) = ground (arith, count_le p xs)

-- What is recent later is recent now.
count-select :
    (now later : ℕ) (xs : List ℕ)
    → now ≤ later
    → count (is_recent later) (select (is_recent now) xs) ≡ count (is_recent later) xs
count-select now later [] h = refl
count-select now later (x ∷ xs) h = elim (Bool-cases (is_recent now x)) [
  | inl e ↦ rw e (ap (λ k. (if is_recent later x then 1 else 0) + k) (count-select now later xs h))
  | inr e ↦
      let old : is_recent later x ≡ false = ground arith in
      let ih = count-select now later xs h in rw (e, old) (omega (arith, ih))
]

count_old :
    (started later : ℕ) (xs : List ℕ)
    → started ≤ later
    → exists (is_recent started) xs ≡ false
    → count (is_recent later) xs ≡ 0
count_old started later [] h p = refl
count_old started later (x ∷ xs) h p = elim (Bool-cases (is_recent started x)) [
  | inl e ↦ let p' : true ≡ false = rw e at p in cc
  | inr e ↦
      let old : is_recent later x ≡ false = ground arith in
      let ih = count_old started later xs h (rw e at p) in rw old (omega (arith, ih))
]

-- The times that are kept for an address, against those at which it passed.
abbrev IsFew : IpRateLimiter → Type 0
IsFew l = length l.timestamps ≤ 15

record Keeps (ip : Bytes) (t : ℕ) (times : List ℕ) (ls : List IpRateLimiter) : Type 0 where
  few : All IsFew ls
  known :
      (later : ℕ)
      → t ≤ later
      → count (is_recent later) times ≤ count (is_recent later) (timestamps_of ip ls)

false_of : (b : Bool) → not b ≡ true → b ≡ false
false_of true h = cc
false_of false h = refl

few_of : (ip : Bytes) (ls : List IpRateLimiter) → All IsFew ls → length (timestamps_of ip ls) ≤ 15
few_of ip [] h = omega arith
few_of ip (l ∷ ls) h = elim (Bool-cases (bytes_eq l.ip ip)) [
  | inl e ↦ rw e h.0
  | inr e ↦ rw e (few_of ip ls h.1)
]

timestamps_of-without :
    (from ip : Bytes) (ls : List IpRateLimiter)
    → bytes_eq from ip ≡ false
    → timestamps_of ip (without from ls) ≡ timestamps_of ip ls
timestamps_of-without from ip [] d = refl
timestamps_of-without from ip (l ∷ ls) d = elim (Bool-cases (bytes_eq l.ip from)) [
  | inl e ↦
      let other : bytes_eq l.ip ip ≡ false =
        ap (λ x. bytes_eq x ip) (bytes_eq→eq l.ip from e) ∙ d in
      rw (e, other) (timestamps_of-without from ip ls d)
  | inr e ↦ rw (e, timestamps_of-without from ip ls d) refl
]

timestamps_of-without_same :
    (ip : Bytes) (ls : List IpRateLimiter) → timestamps_of ip (without ip ls) ≡ []
timestamps_of-without_same ip [] = refl
timestamps_of-without_same ip (l ∷ ls) = elim (Bool-cases (bytes_eq l.ip ip)) [
  | inl e ↦ rw e (timestamps_of-without_same ip ls)
  | inr e ↦ rw (e, e) (timestamps_of-without_same ip ls)
]

doomed_before :
    (ip k : Bytes) (ds : List Bytes)
    → exists (bytes_eq ip) (without_first k ds) ≡ true
    → exists (bytes_eq ip) ds ≡ true
doomed_before ip k [] h = h
doomed_before ip k (d ∷ ds) h = elim (Bool-cases (bytes_eq k d)) [
  | inl e ↦ let h' : exists (bytes_eq ip) ds ≡ true = rw e at h in rw h' (or_true (bytes_eq ip d))
  | inr e ↦
      let h' : (bytes_eq ip d || exists (bytes_eq ip) (without_first k ds)) ≡ true = rw e at h in
      elim (Bool-cases (bytes_eq ip d)) [
        | inl t ↦ rw t refl
        | inr t ↦ rw t (doomed_before ip k ds (rw t at h'))
      ]
]
  where
    or_true : (b : Bool) → (b || true) ≡ true
    or_true true = refl
    or_true false = refl

module _ (ip : Bytes) where
  -- Of a request of another address.
  other-Keeps :
      (from : Bytes) (ts : List ℕ) (t now : ℕ) (times : List ℕ) (ls : List IpRateLimiter)
      → bytes_eq from ip ≡ false
      → length ts ≤ 15
      → t ≤ now
      → Keeps ip t times ls
      → Keeps ip now times (store from ts ls)
  other-Keeps from ts t now times ls d few h k = record {
    few = (few, All-select _ _ ls k.few);
    known =
        λ later g. rw (d, timestamps_of-without from ip ls d) (k.known later (omega (arith, h, g)));
  }

  recent_few :
      (now : ℕ) (ls : List IpRateLimiter)
      → All IsFew ls
      → length (select (is_recent now) (timestamps_of ip ls)) ≤ 15
  recent_few now ls h =
      let l = length-select-le (is_recent now) (timestamps_of ip ls) in
      let m = few_of ip ls h in omega (arith, l, m)

  -- Of a request that does not pass.
  same-Keeps :
      (t now : ℕ) (times : List ℕ) (ls : List IpRateLimiter)
      → t ≤ now
      → Keeps ip t times ls
      → Keeps ip now times (store ip (select (is_recent now) (timestamps_of ip ls)) ls)
  same-Keeps t now times ls h k = record {
    few = (recent_few now ls k.few, All-select _ _ ls k.few);
    known = λ later g.
        let before = k.known later (omega (arith, h, g)) in
        let same = count-select now later (timestamps_of ip ls) g in
        rw (bytes_eq_refl ip) (omega (arith, before, same));
  }

  -- Of a request that passes.
  more-Keeps :
      (t now : ℕ) (times : List ℕ) (ls : List IpRateLimiter)
      → t ≤ now
      → length (select (is_recent now) (timestamps_of ip ls)) < 15
      → Keeps ip t times ls
      → Keeps ip now
          (times ++ (now ∷ []))
          (store ip (select (is_recent now) (timestamps_of ip ls) ++ (now ∷ [])) ls)
  more-Keeps t now times ls h room k = record {
    few = (
      let l = length-append (select (is_recent now) (timestamps_of ip ls)) (now ∷ []) in
          omega (arith, l, room),
      All-select _ _ ls k.few,
    );
    known = λ later g.
        let before = k.known later (omega (arith, h, g)) in
        let same = count-select now later (timestamps_of ip ls) g in
        let one = count-append (is_recent later) times (now ∷ []) in
        let two =
          count-append (is_recent later) (select (is_recent now) (timestamps_of ip ls))
            (now ∷ []) in
        rw (bytes_eq_refl ip) (omega (arith, before, same, one, two));
  }

  later-Keeps :
      (t now : ℕ) (times : List ℕ) (ls : List IpRateLimiter)
      → t ≤ now
      → Keeps ip t times ls
      → Keeps ip now (times ++ []) ls
  later-Keeps t now times ls h k = record {
    few = k.few;
    known = λ later g. rw append-nil (k.known later (omega (arith, h, g)));
  }

  check_ip-Keeps :
      (from : Bytes) (t now : ℕ) (times : List ℕ) (l : Limits)
      → t ≤ now
      → Keeps ip t times l.limiters
      → Keeps ip now
          (times
            ++ (if bytes_eq from ip
                then (if (check_ip from now l).0 then now ∷ [] else [])
                else []))
          (check_ip from now l).1.limiters
  check_ip-Keeps from t now times l h k = elim (Bool-cases (bytes_eq from ip)) [
    | inl e ↦
        let same = bytes_eq→eq from ip e in
        elim (Bool-cases (leb 15 (length (select (is_recent now) (timestamps_of ip l.limiters))))) [
          | inl full ↦
              rw (same, bytes_eq_refl ip, full, append-nil) (same-Keeps t now times l.limiters h k)
          | inr room ↦
              rw (same, bytes_eq_refl ip, room)
                (more-Keeps t now times l.limiters h (ground arith) k)
        ]
    | inr e ↦
        let few = length-select-le (is_recent now) (timestamps_of from l.limiters) in
        let most = few_of from l.limiters k.few in
        elim (Bool-cases
          (leb 15 (length (select (is_recent now) (timestamps_of from l.limiters))))) [
            | inl full ↦
                rw (e, full, append-nil)
                  (other-Keeps from (select (is_recent now) (timestamps_of from l.limiters)) t now
                    times l.limiters e (omega (arith, few, most)) h k)
            | inr room ↦
                let longer =
                  length-append (select (is_recent now) (timestamps_of from l.limiters))
                    (now ∷ []) in
                rw (e, room, append-nil)
                  (other-Keeps from
                    (select (is_recent now) (timestamps_of from l.limiters) ++ (now ∷ [])) t now
                    times l.limiters e (ground arith) h k)
          ]
  ]

  new_window-limiters : (now : ℕ) (l : Limits) → (new_window now l).limiters ≡ l.limiters
  new_window-limiters now l = elim (Bool-cases (ltb (l.global_start + 60000) now)) [
    | inl e ↦ rw e refl
    | inr e ↦ rw e refl
  ]

  gate-Keeps :
      (full is_it : Bool) (now : ℕ) (times : List ℕ) (fresh : Limits) (r : Bool × Limits)
      → Keeps ip now (times ++ (if is_it then (if r.0 then now ∷ [] else []) else [])) r.1.limiters
      → Keeps ip now (times ++ []) fresh.limiters
      → Keeps ip now
          (times
            ++ (if is_it
                then (if (if full then (false, fresh) else r).0 then now ∷ [] else [])
                else []))
          (if full then (false, fresh) else r).1.limiters
  gate-Keeps false is_it now times fresh r h k = h
  gate-Keeps true true now times fresh r h k = k
  gate-Keeps true false now times fresh r h k = k

  request-Keeps :
      (from : Bytes) (t now : ℕ) (times : List ℕ) (s : Running)
      → t ≤ now
      → Keeps ip t times s.limits.limiters
      → Keeps ip now
          (times ++ passed ip (request from now) s)
          (check_rate_limit from now s.limits).1.limiters
  unfolding check_rate_limit
  request-Keeps from t now times s h k =
      let l = s.limits in
      let same = new_window-limiters now l in
      let k' : Keeps ip t times (new_window now l).limiters = rw same k in
      gate-Keeps (leb 300 (new_window now l).global_count) (bytes_eq from ip) now times
        (new_window now l) (check_ip from now (new_window now l))
        (check_ip-Keeps from t now times (new_window now l) h k')
        (later-Keeps t now times (new_window now l).limiters h k')

  -- A request of another address.
  other_request :
      (from : Bytes) (now : ℕ) (l : Limits)
      → bytes_eq from ip ≡ false
      → timestamps_of ip (check_rate_limit from now l).1.limiters ≡ timestamps_of ip l.limiters
  unfolding check_rate_limit
  other_request from now l d =
      let same = new_window-limiters now l in
      elim (Bool-cases (leb 300 (new_window now l).global_count)) [
        | inl e ↦ rw (e, same) refl
        | inr e ↦
            elim (Bool-cases (
              leb 15 (
                length
                  (select (is_recent now) (timestamps_of from (new_window now l).limiters))))) [
                    | inl full ↦
                        rw
                          (
                            e,
                            full,
                            d,
                            timestamps_of-without from ip (new_window now l).limiters d,
                            same,
                          )
                          refl
                    | inr room ↦
                        rw
                          (
                            e,
                            room,
                            d,
                            timestamps_of-without from ip (new_window now l).limiters d,
                            same,
                          )
                          refl
                  ]
      ]

  -- A limiter that is to be deleted has no time in any window to come.
  record Holds (t : ℕ) (times : List ℕ) (s : Running) : Type 0 where
    keeps : Keeps ip t times s.limits.limiters
    quiet :
        exists (bytes_eq ip) s.doomed ≡ true
        → (later : ℕ) → t ≤ later
        → count (is_recent later) (timestamps_of ip s.limits.limiters) ≡ 0

  request-Holds :
      (from : Bytes) (t now : ℕ) (times : List ℕ) (s : Running)
      → t ≤ now
      → exists (bytes_eq from) s.doomed ≡ false
      → Holds t times s
      → Holds now (times ++ passed ip (request from now) s) (step (request from now) s)
  request-Holds from t now times s h d k = record {
    keeps = request-Keeps from t now times s h k.keeps;
    quiet = λ doomed later g. elim (Bool-cases (bytes_eq from ip)) [
      | inl e ↦
          let same = bytes_eq→eq from ip e in
          let d' : exists (bytes_eq ip) s.doomed ≡ false =
            subst (λ x. exists (bytes_eq x) s.doomed ≡ false) same d in
          let wrong : true ≡ false = sym doomed ∙ d' in cc
      | inr e ↦
          ap (count (is_recent later)) (other_request from now s.limits e)
          ∙ k.quiet doomed later (omega (arith, h, g))
    ];
  }

  tests-Holds :
      (started : ℕ) (other : Bytes) (t : ℕ) (times : List ℕ) (s : Running)
      → started ≤ t
      → Holds t times s
      → Holds t times (test_limiter started other s)
  unfolding test_limiter
  tests-Holds started other t times s h k =
      elim (Bool-cases
        (has_limiter other s.limits.limiters && all_expired started other s.limits.limiters)) [
          | inl e ↦ rw e (record {
            keeps = k.keeps;
            quiet = λ doomed later g. elim (Bool-cases (bytes_eq ip other)) [
              | inl same ↦
                  let over = (&&→both _ _ e).1 in
                  let none_left : exists (is_recent started) (timestamps_of other s.limits.limiters)
                      ≡ false =
                    false_of _ over in
                  subst (λ x. count (is_recent later) (timestamps_of x s.limits.limiters) ≡ 0)
                    (sym (bytes_eq→eq ip other same))
                    (count_old started later (timestamps_of other s.limits.limiters)
                      (omega (arith, h, g)) none_left)
              | inr apart ↦ k.quiet (rw apart at doomed) later g
            ];
          })
          | inr e ↦ rw e k
        ]

  deletes-Holds :
      (other : Bytes) (t : ℕ) (times : List ℕ) (s : Running)
      → Holds t times s
      → Holds t times (delete_limiter other s)
  unfolding delete_limiter
  deletes-Holds other t times s k = elim (Bool-cases (exists (bytes_eq other) s.doomed)) [
    | inr e ↦ rw e k
    | inl e ↦ elim (Bool-cases (bytes_eq other ip)) [
      | inl same ↦
          let here = bytes_eq→eq other ip same in
          let doomed : exists (bytes_eq ip) s.doomed ≡ true =
            subst (λ x. exists (bytes_eq x) s.doomed ≡ true) here e in
          let empty : timestamps_of ip (without other s.limits.limiters) ≡ [] =
            subst (λ x. timestamps_of ip (without x s.limits.limiters) ≡ []) (sym here)
              (timestamps_of-without_same ip s.limits.limiters) in
          rw e (record {
            keeps = record {
              few = All-select _ _ s.limits.limiters k.keeps.few;
              known = λ later g.
                  let none_left = k.quiet doomed later g in
                  let before = k.keeps.known later g in rw empty (omega (arith, none_left, before));
            };
            quiet = λ more later g. ap (count (is_recent later)) empty;
          })
      | inr apart ↦
          let others = timestamps_of-without other ip s.limits.limiters apart in
          rw e (record {
            keeps = record {
              few = All-select _ _ s.limits.limiters k.keeps.few;
              known = λ later g. rw others (k.keeps.known later g);
            };
            quiet = λ more later g.
                ap (count (is_recent later)) others
                ∙ k.quiet (doomed_before ip other s.doomed more) later g;
          })
    ]
  ]

  run-Holds :
      (es : List Event) (t end : ℕ) (times : List ℕ) (s : Running)
      → IsOrdered t es end s
      → Holds t times s
      → count (is_recent end) (times ++ all_passed ip es s) ≤ 15
  run-Holds [] t end times s o k =
      let m = k.keeps.known end o in
      let n = count_le (is_recent end) (timestamps_of ip s.limits.limiters) in
      let few = few_of ip s.limits.limiters k.keeps.few in rw append-nil (omega (arith, m, n, few))
  run-Holds (request from now ∷ es) t end times s o k =
      rw
        (sym (
          append_assoc times (passed ip (request from now) s)
            (all_passed ip es (step (request from now) s))))
        (run-Holds es now end (times ++ passed ip (request from now) s) (step (request from now) s)
          o.2 (request-Holds from t now times s o.0 o.1 k))
  run-Holds (tests started other ∷ es) t end times s o k =
      run-Holds es t end times (test_limiter started other s) o.1
        (tests-Holds started other t times s o.0 k)
  run-Holds (deletes other ∷ es) t end times s o k =
      run-Holds es t end times (delete_limiter other s) o (deletes-Holds other t times s k)

  -- From an empty map of limiters, whatever requests come, each handled as one step, and whenever a cleanup that was
  -- started before tests or deletes limiters, at most 15 requests of an address pass in any 60 seconds, as long as the
  -- clock does not go back and no request of an address comes between the test of its limiter and its deletion.
  pub check_rate_limit-AtMost :
      (es : List Event) (from_time end : ℕ)
      → IsOrdered from_time es end (start from_time)
      → count (is_recent end) (all_passed ip es (start from_time)) ≤ 15
  check_rate_limit-AtMost es from_time end o =
      run-Holds es from_time end [] (start from_time) o (record {
        keeps = record { few = tt; known = λ later g. omega arith };
        quiet = λ doomed later g. refl;
      })

-- ===== src/Delegation/KeyCache/Evicts.antt =====
-- The eviction of decrypted keys (bot/delegation/worker.go) ends.
use shipmates_oss.Prelude.{
  ℕ, zero, suc, ◌≤◌, ◌<◌, ◌≡◌, refl, ap, ◌∙◌, subst, inl, inr, Bool, true, false, not, Option, none,
  some, List, [], ◌∷◌, ltb, ◌==◌, if◌then◌else◌, length, length-select-le, Bool-cases, In, All,
  All-In, All-select, arith,
}
use shipmates_oss.Prelude.Prefixes.{bytes_eq_refl}
use shipmates_oss.Delegation.KeyCache.{
  CacheEntry, is_at, remove, oldest_from, evict_oldest_decrypt_entry, evict_while,
}

abbrev pub HasUser : CacheEntry → Type 0
HasUser e = (length e.user_id == 0) ≡ false

either-In :
    (b : Bool) (oldest e : CacheEntry) (es : List CacheEntry) {y : CacheEntry}
    → In y ((if b then e else oldest) ∷ es)
    → In y (oldest ∷ e ∷ es)
either-In true oldest e es m = inr m
either-In false oldest e es (inl m) = inl m
either-In false oldest e es (inr m) = inr (inr m)

oldest-In : (oldest : CacheEntry) (es : List CacheEntry) → In (oldest_from oldest es) (oldest ∷ es)
oldest-In oldest [] = inl refl
oldest-In oldest (e ∷ es) =
    let older = ltb e.last_used oldest.last_used in
    either-In older oldest e es (oldest-In (if older then e else oldest) es)

length-remove :
    (x : CacheEntry) (es : List CacheEntry)
    → In x es
    → length (remove x.user_id x.encrypted_key es) < length es
length-remove x [] m = elim m [ ]
length-remove x (e ∷ es) m = elim (Bool-cases (is_at x.user_id x.encrypted_key e)) [
  | inl q ↦
      let l = length-select-le (λ e. not (is_at x.user_id x.encrypted_key e)) es in
      rw q (omega (arith, l))
  | inr q ↦ elim m [
    | inl same ↦ absurd (
        let here = ap (is_at x.user_id x.encrypted_key) same ∙ q in
        let one = bytes_eq_refl x.user_id in
        let two = bytes_eq_refl x.encrypted_key in ground arith)
    | inr there ↦ let l = length-remove x es there in rw q (omega (arith, l))
  ]
]

evict_shorter :
    (e : CacheEntry) (es : List CacheEntry)
    → All HasUser (e ∷ es)
    → length (evict_oldest_decrypt_entry (e ∷ es)) < length (e ∷ es)
unfolding evict_oldest_decrypt_entry
evict_shorter e es h =
    let at_oldest = oldest-In e es in
    rw (All-In HasUser (e ∷ es) h at_oldest) (length-remove (oldest_from e es) (e ∷ es) at_oldest)

evict-All :
    (P : CacheEntry → Type 0) (es : List CacheEntry)
    → All P es
    → All P (evict_oldest_decrypt_entry es)
unfolding evict_oldest_decrypt_entry
evict-All P [] h = tt
evict-All P (e ∷ es) h = elim (Bool-cases (length (oldest_from e es).user_id == 0)) [
  | inl q ↦ rw q h
  | inr q ↦ rw q (
      All-select P (λ x. not (is_at (oldest_from e es).user_id (oldest_from e es).encrypted_key x))
        (e ∷ es) h)
]

-- In a cache without an entry of the empty user id the eviction ends after at most as many rounds as there are
-- entries, and leaves at most 1000.
pub evict_while_ends :
    (rounds : ℕ) (es : List CacheEntry)
    → length es ≤ rounds
    → All HasUser es
    → (fs : List CacheEntry) × (evict_while rounds es ≡ some fs) × (length fs ≤ 1000)
unfolding evict_while
evict_while_ends zero es h u =
    (es, rw (let e : ltb 1000 (length es) ≡ false = ground arith in e) refl, omega (arith, h))
evict_while_ends (suc rounds) [] h u = ([], refl, omega arith)
evict_while_ends (suc rounds) (e ∷ es) h u = elim (Bool-cases (ltb 1000 (length (e ∷ es)))) [
  | inr q ↦ (e ∷ es, rw q refl, ground arith)
  | inl q ↦
      let l = evict_shorter e es u in
      let (fs, ends, few) =
        evict_while_ends rounds (evict_oldest_decrypt_entry (e ∷ es)) (omega (arith, l, h))
          (evict-All HasUser (e ∷ es) u) in
      (fs, rw q ends, few)
]

-- What holds of every entry holds after the eviction.
pub evict_while-All :
    (P : CacheEntry → Type 0) (rounds : ℕ) (es : List CacheEntry) {fs : List CacheEntry}
    → evict_while rounds es ≡ some fs
    → All P es
    → All P fs
unfolding evict_while
evict_while-All P zero es {fs} h p = elim (Bool-cases (ltb 1000 (length es))) [
  | inl q ↦ let h' : ◌≡◌ {A = Option (List CacheEntry)} none (some fs) = rw q at h in cc
  | inr q ↦ let h' : some es ≡ some fs = rw q at h in let e : es ≡ fs = cc in subst (All P) e p
]
evict_while-All P (suc rounds) es {fs} h p = elim (Bool-cases (ltb 1000 (length es))) [
  | inl q ↦ evict_while-All P rounds (evict_oldest_decrypt_entry es) (rw q at h) (evict-All P es p)
  | inr q ↦ let h' : some es ≡ some fs = rw q at h in let e : es ≡ fs = cc in subst (All P) e p
]

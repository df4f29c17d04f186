-- ===== src/Delegation/KeyCache/Transparent.antt =====
-- What getCachedDecryptedKey (bot/delegation/worker.go) answers.
use shipmates_oss.Prelude.{
  ℕ, suc, ◌≤◌, ◌≡◌, refl, sym, ap, ◌∙◌, inl, inr, false, not, Option, none, some, List, [], ◌∷◌,
  ltb, ◌==◌, length, length-select-le, Bool-cases, Option-cases, &&→both, All, All-select, arith,
}
use shipmates_oss.Prelude.Bytes.{Bytes, bytes_eq}
use shipmates_oss.Prelude.Prefixes.{bytes_eq→eq}
use shipmates_oss.Delegation.KeyCache.{
  CacheEntry, is_at, cached, used_at, touch, put, get_cached_decrypted_key,
}
use shipmates_oss.Delegation.KeyCache.Evicts.{HasUser, evict_while_ends, evict_while-All}

abbrev pub or_empty : Option Bytes → Bytes
or_empty none = []
or_empty (some key) = key

touch-All :
    (P : CacheEntry → Type 0) (u k : Bytes) (now : ℕ)
    → ((e : CacheEntry) → P e → P (used_at now e))
    → (es : List CacheEntry) → All P es
    → All P (touch u k now es)
touch-All P u k now f [] p = tt
touch-All P u k now f (e ∷ es) p = elim (Bool-cases (is_at u k e)) [
  | inl q ↦ rw q (f e p.0, touch-All P u k now f es p.1)
  | inr q ↦ rw q (p.0, touch-All P u k now f es p.1)
]

length-touch :
    (u k : Bytes) (now : ℕ) (es : List CacheEntry) → length (touch u k now es) ≡ length es
length-touch u k now [] = refl
length-touch u k now (e ∷ es) = ap suc (length-touch u k now es)

module _ (decrypt_with_key : Bytes → Option Bytes) (decrypt_cache_ttl : ℕ) where
  -- What an entry must be: it has a user, and its key is the decrypted one.
  abbrev pub IsTrue : CacheEntry → Type 0
  IsTrue e = HasUser e × (decrypt_with_key e.encrypted_key ≡ some e.key)

  pub record IsSound (es : List CacheEntry) : Type 0 where
    pub entries : All IsTrue es
    pub few : length es ≤ 1000

  users : (es : List CacheEntry) → All IsTrue es → All HasUser es
  users [] h = tt
  users (e ∷ es) h = (h.0.0, users es h.1)

  cached_true :
      (u k : Bytes) (now : ℕ) (es : List CacheEntry) {key : Bytes}
      → All IsTrue es
      → cached u k now es ≡ some key
      → decrypt_with_key k ≡ some key
  cached_true u k now [] {key} h c = let c' : ◌≡◌ {A = Option Bytes} none (some key) = c in cc
  cached_true u k now (e ∷ es) {key} h c = elim (Bool-cases (is_at u k e)) [
    | inr q ↦ cached_true u k now es h.1 (rw q at c)
    | inl q ↦ elim (Bool-cases (ltb now e.expires_at)) [
      | inl r ↦
          let c' : some e.key ≡ some key = rw (q, r) at c in
          let same =
            bytes_eq→eq e.encrypted_key k
              (&&→both (bytes_eq e.user_id u) (bytes_eq e.encrypted_key k) q).1 in
          ap decrypt_with_key (sym same) ∙ h.0.1 ∙ c'
      | inr r ↦ let c' : ◌≡◌ {A = Option Bytes} none (some key) = rw (q, r) at c in cc
    ]
  ]

  -- From a cache of at most 1000 entries that hold the decrypted keys of users with an id, getCachedDecryptedKey,
  -- for such a user, ends, after at most 1001 evictions, answers what DecryptWithKey makes of the key, or nothing
  -- where that fails, at whatever time, and leaves such a cache.
  pub get_cached_decrypted_key-IsSound :
      (u k : Bytes) (now : ℕ) (es : List CacheEntry)
      → (length u == 0) ≡ false
      → IsSound es
      → (fs : List CacheEntry) × (get_cached_decrypted_key decrypt_with_key decrypt_cache_ttl u k
            now 1001 es
          ≡ some (or_empty (decrypt_with_key k), fs))
        × IsSound fs
  unfolding get_cached_decrypted_key
  get_cached_decrypted_key-IsSound u k now es user s = elim (Option-cases (cached u k now es)) [
    | inr (key, hit) ↦
        let true_key = cached_true u k now es s.entries hit in
        let l = length-touch u k now es in
        let m = s.few in
        (
          touch u k now es,
          rw (hit, true_key) refl,
          record {
            entries = touch-All IsTrue u k now (λ e p. p) es s.entries;
            few = omega (arith, l, m);
          },
        )
    | inl miss ↦ elim (Option-cases (decrypt_with_key k)) [
      | inl fails ↦ (es, rw (miss, fails) refl, s)
      | inr (key, works) ↦
          let made = put decrypt_with_key decrypt_cache_ttl u k key now es in
          let there : All IsTrue made =
            ((user, works), All-select IsTrue (λ e. not (is_at u k e)) es s.entries) in
          let l = length-select-le (λ e. not (is_at u k e)) es in
          let m = s.few in
          let (fs, ends, few) =
            evict_while_ends 1001 made (omega (arith, l, m)) (users made there) in
          (
            fs,
            rw (miss, works, ends) refl,
            record { entries = evict_while-All IsTrue 1001 made ends there; few = few },
          )
    ]
  ]

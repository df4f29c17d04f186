-- ===== src/Shared/Crypto/Cache.antt =====
-- The cache of derived keys answers what scrypt would (go-shared/crypto.go).
use shipmates_oss.Prelude.{
  ℕ, ◌≡◌, refl, sym, ap, ◌∙◌, subst, inl, inr, true, not, Option, none, some, List, [], ◌∷◌, leb,
  ltb, ◌==◌, if◌then◌else◌, ◌/◌, length, take, All, All-select, Bool-cases, Option-cases, &&→both,
  if_cases,
}
use shipmates_oss.Prelude.Bytes.{Bytes, bytes_eq}
use shipmates_oss.Prelude.Prefixes.{bytes_eq→eq}
use shipmates_oss.Prelude.Hex.{encode, decode, AreBytes, decode-encode}
use shipmates_oss.Shared.Crypto.{
  Ciphers, ScryptCacheEntry, is_at, lookup, delete_each, evict, set, derive_key_with_cache,
}

module _ (c : Ciphers) (password : Bytes) where
  -- An entry under the hash of the password holds the key of its salt.
  abbrev pub IsTrue : ScryptCacheEntry c → Type 0
  IsTrue e =
      bytes_eq e.password_hash (c.sum256 password) ≡ true
      → (salt : Bytes) → decode e.salt ≡ some salt
      → c.derive password salt ≡ some e.key

  abbrev pub IsSound : List (ScryptCacheEntry c) → Type 0
  IsSound = All IsTrue

  lookup_true :
      (salt : Bytes) (es : List (ScryptCacheEntry c)) {key : c.Key}
      → AreBytes salt
      → IsSound es
      → lookup c (c.sum256 password) (encode salt) es ≡ some key
      → c.derive password salt ≡ some key
  lookup_true salt [] {key} b t h = let h' : ◌≡◌ {A = Option c.Key} none (some key) = h in cc
  lookup_true salt (e ∷ es) {key} b t h =
      elim (Bool-cases (is_at c (c.sum256 password) (encode salt) e)) [
        | inr q ↦ lookup_true salt es b t.1 (rw q at h)
        | inl q ↦
            let h' : some e.key ≡ some key = rw q at h in
            let (one, two) =
              &&→both (bytes_eq e.password_hash (c.sum256 password)) (bytes_eq e.salt (encode salt))
                q in
            t.0 one salt (ap decode (bytes_eq→eq e.salt (encode salt) two) ∙ decode-encode salt b)
            ∙ h'
      ]

  delete_each-IsSound :
      (ds es : List (ScryptCacheEntry c)) → IsSound es → IsSound (delete_each c ds es)
  delete_each-IsSound [] es t = t
  delete_each-IsSound (e ∷ ds) es t = delete_each-IsSound ds _ (All-select IsTrue _ es t)

  module _ (sort : List (ScryptCacheEntry c) → List (ScryptCacheEntry c)) where
    evict-IsSound : (es : List (ScryptCacheEntry c)) → IsSound es → IsSound (evict c sort es)
    unfolding evict
    evict-IsSound es t =
        let count = if ltb (length es) (1000 / 4) then length es else 1000 / 4 in
        if_cases IsSound (length es == 0) es (delete_each c (take count (sort es)) es) (λ e. t)
          (λ e. delete_each-IsSound (take count (sort es)) es t)

    set-IsSound :
        (salt : Bytes) (key : c.Key) (now : ℕ) (es : List (ScryptCacheEntry c))
        → AreBytes salt
        → c.derive password salt ≡ some key
        → IsSound es
        → IsSound (set c sort (c.sum256 password) (encode salt) key now es)
    unfolding set
    set-IsSound salt key now es b d t =
        let room =
          if_cases IsSound (leb 1000 (length es)) (evict c sort es) es (λ e. evict-IsSound es t)
            (λ e. t) in
        let true_key : IsTrue (record {
          password_hash = c.sum256 password;
          salt = encode salt;
          key = key;
          added_at = now;
        }) =
          λ same s h.
            let h' : some salt ≡ some s = sym (decode-encode salt b) ∙ h in
            let e : salt ≡ s = cc in subst (λ x. c.derive password x ≡ some key) e d in
        (
          true_key,
          All-select IsTrue (λ x. not (is_at c (c.sum256 password) (encode salt) x)) _ room,
        )

    -- The cache does not change the key, and stays sound.
    pub derive_key_with_cache_lem :
        (salt : Bytes) (now : ℕ) (es : List (ScryptCacheEntry c))
        → AreBytes salt
        → IsSound es
        → ((derive_key_with_cache c sort password salt now es).0 ≡ c.derive password salt)
          × IsSound (derive_key_with_cache c sort password salt now es).1
    unfolding derive_key_with_cache
    derive_key_with_cache_lem salt now es b t =
        elim (Option-cases (lookup c (c.sum256 password) (encode salt) es)) [
          | inr (key, hit) ↦ rw hit (sym (lookup_true salt es b t hit), t)
          | inl miss ↦ elim (Option-cases (c.derive password salt)) [
            | inl fails ↦ rw (miss, fails) (refl, t)
            | inr (key, works) ↦ rw (miss, works) (refl, set-IsSound salt key now es b works t)
          ]
        ]

-- ===== src/Shared/Crypto.antt =====
-- go-shared/crypto.go: texts under a password. scrypt, SHA-256 and AES-GCM are parameters; a failure is none.
pub mod Cache
pub mod Opens
use shipmates_oss.Prelude.{
  ℕ, ◌+◌, ◌-◌, ◌/◌, Bool, true, false, not, ◌&&◌, ◌||◌, Option, none, some, List, [], ◌∷◌, ◌++◌,
  leb, ltb, ◌==◌, if◌then◌else◌, length, take, drop, select,
}
use shipmates_oss.Prelude.Bytes.{Bytes, bytes_eq, split_on}
use shipmates_oss.Prelude.Hex.{encode, decode}

-- The library's calls. A cipher is for one length of nonces, which is not 0.
pub record Ciphers : Type 1 where
  pub Key : Type 0
  -- sha256.Sum256
  pub sum256 : Bytes → Bytes
  -- scrypt.Key and aes.NewCipher
  pub derive : Bytes → Bytes → Option Key
  -- Seal and Open of a cipher, with the nonce first
  pub seal : Key → Bytes → Bytes → Bytes
  pub unseal : Key → Bytes → Bytes → Option Bytes
  -- Overhead
  pub overhead : ℕ

abbrev pub max_cache_size : ℕ
max_cache_size = 1000

abbrev pub then_some : {A B : Type 0} → Option A → (A → Option B) → Option B
then_some none k = none
then_some (some a) k = k a

module _ (c : Ciphers) where
  pub record ScryptCacheEntry : Type 0 where
    pub password_hash : Bytes
    pub salt : Bytes
    pub key : c.Key
    pub added_at : ℕ

  abbrev pub is_at : Bytes → Bytes → ScryptCacheEntry → Bool
  is_at h s e = bytes_eq e.password_hash h && bytes_eq e.salt s

  abbrev pub lookup : Bytes → Bytes → List ScryptCacheEntry → Option c.Key
  lookup h s [] = none
  lookup h s (e ∷ es) = let rest = lookup h s es in if is_at h s e then some e.key else rest

  abbrev pub delete_each : List ScryptCacheEntry → List ScryptCacheEntry → List ScryptCacheEntry
  delete_each [] es = es
  delete_each (e ∷ ds) es = delete_each ds (select (λ x. not (is_at e.password_hash e.salt x)) es)

  abbrev pub text_of : Bytes → Bytes → Bytes → Bytes → Bytes
  text_of salt iv tag ciphertext =
      encode salt ++ (b':' ∷ (encode iv ++ (b':' ∷ (encode tag ++ (b':' ∷ encode ciphertext)))))

  abbrev pub sealed : Bytes → Bytes → Bytes → Bytes
  sealed salt iv s =
      let tag_start = length s - c.overhead in text_of salt iv (drop tag_start s) (take tag_start s)

  -- The salt and the nonce are what rand.Read gave, which does not fail here.
  unfoldable pub encrypt : Bytes → Bytes → Bytes → Bytes → Option Bytes
  encrypt salt iv plaintext password =
      then_some (c.derive password salt) λ key. some (sealed salt iv (c.seal key iv plaintext))

  -- sort.Slice of the entries by their age, in the order in which the map gave them
  module _ (sort : List ScryptCacheEntry → List ScryptCacheEntry) where
    unfoldable pub evict : List ScryptCacheEntry → List ScryptCacheEntry
    evict es =
        let quarter = max_cache_size / 4 in
        let delete_count = if ltb (length es) quarter then length es else quarter in
        if length es == 0 then es else delete_each (take delete_count (sort es)) es

    unfoldable pub set : Bytes → Bytes → c.Key → ℕ → List ScryptCacheEntry → List ScryptCacheEntry
    unfolding evict
    set h s key now es =
        let room = if leb max_cache_size (length es) then evict es else es in
        record { password_hash = h; salt = s; key = key; added_at = now }
        ∷ select (λ x. not (is_at h s x)) room

    abbrev pub derived :
        Bytes
        → Bytes
        → ℕ
        → Option c.Key
        → List ScryptCacheEntry
        → Option c.Key × List ScryptCacheEntry
    derived h s now none es = (none, es)
    derived h s now (some key) es = (some key, set h s key now es)

    abbrev pub found_or :
        Option c.Key
        → (Option c.Key × List ScryptCacheEntry)
        → List ScryptCacheEntry
        → Option c.Key × List ScryptCacheEntry
    found_or none r es = r
    found_or (some key) r es = (some key, es)

    unfoldable pub derive_key_with_cache :
        Bytes → Bytes → ℕ → List ScryptCacheEntry → Option c.Key × List ScryptCacheEntry
    unfolding set
    derive_key_with_cache password salt now es =
        let h = c.sum256 password in
        let s = encode salt in
        found_or (lookup h s es) (derived h s now (c.derive password salt) es) es

    abbrev pub opened :
        Bytes
        → Bytes
        → Bytes
        → (Option c.Key × List ScryptCacheEntry)
        → Option Bytes × List ScryptCacheEntry
    opened iv tag encrypted (none, es) = (none, es)
    opened iv tag encrypted (some key, es) =
        ((if length iv == 0 then none else c.unseal key iv (encrypted ++ tag)), es)

    abbrev pub with_parts :
        Option Bytes
        → Option Bytes
        → Option Bytes
        → Option Bytes
        → Bytes
        → ℕ
        → List ScryptCacheEntry
        → Option Bytes × List ScryptCacheEntry
    with_parts (some salt) (some iv) (some tag) (some encrypted) password now es =
        opened iv tag encrypted (derive_key_with_cache password salt now es)
    with_parts _ _ _ _ password now es = (none, es)

    abbrev pub is_empty : Bytes → Bool
    is_empty s = length s == 0

    abbrev pub of_parts :
        List Bytes → Bytes → ℕ → List ScryptCacheEntry → Option Bytes × List ScryptCacheEntry
    of_parts (salt ∷ iv ∷ tag ∷ encrypted ∷ []) password now es =
        if is_empty salt || (is_empty iv || (is_empty tag || is_empty encrypted))
        then (none, es)
        else with_parts (decode salt) (decode iv) (decode tag) (decode encrypted) password now es
    of_parts _ password now es = (none, es)

    unfoldable pub decrypt :
        Bytes → Bytes → ℕ → List ScryptCacheEntry → Option Bytes × List ScryptCacheEntry
    unfolding derive_key_with_cache
    decrypt ciphertext password now es = of_parts (split_on b':' ciphertext) password now es

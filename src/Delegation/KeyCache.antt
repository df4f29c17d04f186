-- ===== src/Delegation/KeyCache.antt =====
-- The cache of decrypted keys in bot/delegation/worker.go. The map of maps is a list of entries, in the order in
-- which a range meets them; DecryptWithKey is a parameter. A call of getCachedDecryptedKey is one step.
pub mod Transparent
pub mod Evicts
use shipmates_oss.Prelude.{
  ℕ, zero, suc, ◌+◌, Bool, true, false, not, ◌&&◌, Option, none, some, List, [], ◌∷◌, ltb, ◌==◌,
  if◌then◌else◌, length, select, exists,
}
use shipmates_oss.Prelude.Bytes.{Bytes, bytes_eq}

pub record CacheEntry : Type 0 where
  pub user_id : Bytes
  pub encrypted_key : Bytes
  pub key : Bytes
  pub last_used : ℕ
  pub expires_at : ℕ

abbrev pub max_decryption_cache_size : ℕ
max_decryption_cache_size = 1000

abbrev pub is_at : Bytes → Bytes → CacheEntry → Bool
is_at u k e = bytes_eq e.user_id u && bytes_eq e.encrypted_key k

-- The key of an entry that is not over.
abbrev pub cached : Bytes → Bytes → ℕ → List CacheEntry → Option Bytes
cached u k now [] = none
cached u k now (e ∷ es) =
    let rest = cached u k now es in
    if is_at u k e then (if ltb now e.expires_at then some e.key else none) else rest

abbrev pub used_at : ℕ → CacheEntry → CacheEntry
used_at now e = record {
  user_id = e.user_id;
  encrypted_key = e.encrypted_key;
  key = e.key;
  last_used = now;
  expires_at = e.expires_at;
}

abbrev pub touch : Bytes → Bytes → ℕ → List CacheEntry → List CacheEntry
touch u k now [] = []
touch u k now (e ∷ es) = (if is_at u k e then used_at now e else e) ∷ touch u k now es

abbrev pub remove : Bytes → Bytes → List CacheEntry → List CacheEntry
remove u k = select (λ e. not (is_at u k e))

-- The first of those that were used longest ago.
abbrev pub oldest_from : CacheEntry → List CacheEntry → CacheEntry
oldest_from oldest [] = oldest
oldest_from oldest (e ∷ es) =
    oldest_from (if ltb e.last_used oldest.last_used then e else oldest) es

abbrev pub remove_named : CacheEntry → List CacheEntry → List CacheEntry
remove_named oldest es =
    if length oldest.user_id == 0 then es else remove oldest.user_id oldest.encrypted_key es

unfoldable pub evict_oldest_decrypt_entry : List CacheEntry → List CacheEntry
evict_oldest_decrypt_entry [] = []
evict_oldest_decrypt_entry (e ∷ es) = remove_named (oldest_from e es) (e ∷ es)

-- The loop; none where it still runs after so many rounds.
unfoldable pub evict_while : ℕ → List CacheEntry → Option (List CacheEntry)
unfolding evict_oldest_decrypt_entry
evict_while zero es = if ltb max_decryption_cache_size (length es) then none else some es
evict_while (suc rounds) es =
    let rest = evict_while rounds (evict_oldest_decrypt_entry es) in
    if ltb max_decryption_cache_size (length es) then rest else some es

module _ (decrypt_with_key : Bytes → Option Bytes) (decrypt_cache_ttl : ℕ) where
  abbrev pub put : Bytes → Bytes → Bytes → ℕ → List CacheEntry → List CacheEntry
  put u k key now es =
      record {
        user_id = u;
        encrypted_key = k;
        key = key;
        last_used = now;
        expires_at = now + decrypt_cache_ttl;
      }
      ∷ remove u k es

  abbrev pub with_cache : Bytes → Option (List CacheEntry) → Option (Bytes × List CacheEntry)
  with_cache key none = none
  with_cache key (some es) = some (key, es)

  abbrev pub decrypted :
      Bytes → Bytes → ℕ → ℕ → Option Bytes → List CacheEntry → Option (Bytes × List CacheEntry)
  decrypted u k now rounds none es = some ([], es)
  decrypted u k now rounds (some key) es = with_cache key (evict_while rounds (put u k key now es))

  abbrev pub answered :
      Bytes → Bytes → ℕ → ℕ → Option Bytes → List CacheEntry → Option (Bytes × List CacheEntry)
  answered u k now rounds (some key) es = some (key, touch u k now es)
  answered u k now rounds none es = decrypted u k now rounds (decrypt_with_key k) es

  unfoldable pub get_cached_decrypted_key :
      Bytes → Bytes → ℕ → ℕ → List CacheEntry → Option (Bytes × List CacheEntry)
  unfolding evict_while
  get_cached_decrypted_key u k now rounds es = answered u k now rounds (cached u k now es) es

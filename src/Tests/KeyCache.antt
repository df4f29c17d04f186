-- ===== src/Tests/KeyCache.antt =====
-- A cache with one decrypted key.
use shipmates_oss.Prelude.{◌≡◌, refl, Option, some, List, [], ◌∷◌, ◌++◌, arith}
use shipmates_oss.Prelude.Bytes.{Bytes, codes}
use shipmates_oss.Delegation.KeyCache.{CacheEntry, get_cached_decrypted_key}
use shipmates_oss.Delegation.KeyCache.Transparent.{IsSound, get_cached_decrypted_key-IsSound}

abbrev opens : Bytes → Option Bytes
opens s = some (codes "key of " ++ s)

abbrev one_key : List CacheEntry
one_key =
    record {
      user_id = codes "u";
      encrypted_key = codes "a";
      key = codes "key of a";
      last_used = 1;
      expires_at = 301;
    }
    ∷ []

one_key-IsSound : IsSound opens 300 one_key
one_key-IsSound = record { entries = ((refl, refl), tt); few = omega arith }

get_cached_decrypted_key-IsSound_example :
    (fs : List CacheEntry) × (get_cached_decrypted_key opens 300
        (codes "u")
        (codes "b")
        2
        1001
        one_key
      ≡ some (codes "key of b", fs))
    × IsSound opens 300 fs
get_cached_decrypted_key-IsSound_example =
    get_cached_decrypted_key-IsSound opens 300 (codes "u") (codes "b") 2 one_key refl
      one_key-IsSound

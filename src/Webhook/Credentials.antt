-- ===== src/Webhook/Credentials.antt =====
-- decryptAES256GCM of webhook-router/crypto.go, over the calls that go-shared/crypto.go makes too. Its cache is
-- never emptied.
use shipmates_oss.Prelude.{
  ◌&&◌, Option, none, some, List, [], ◌∷◌, ◌++◌, ◌==◌, if◌then◌else◌, length,
}
use shipmates_oss.Prelude.Bytes.{Bytes, bytes_eq, split_on}
use shipmates_oss.Prelude.Hex.{encode, decode}
use shipmates_oss.Shared.Crypto.{Ciphers}

module _ (c : Ciphers) where
  pub record CachedKey : Type 0 where
    pub password : Bytes
    pub salt : Bytes
    pub key : c.Key

  abbrev pub cached_key : Bytes → Bytes → List CachedKey → Option c.Key
  cached_key p s [] = none
  cached_key p s (e ∷ es) =
      let rest = cached_key p s es in
      if bytes_eq e.password p && bytes_eq e.salt s then some e.key else rest

  abbrev pub derived_key :
      Bytes → Bytes → Option c.Key → List CachedKey → Option c.Key × List CachedKey
  derived_key p s none es = (none, es)
  derived_key p s (some key) es = (some key, record { password = p; salt = s; key = key } ∷ es)

  abbrev pub key_or :
      Option c.Key → Option c.Key × List CachedKey → List CachedKey → Option c.Key × List CachedKey
  key_or none r es = r
  key_or (some key) r es = (some key, es)

  abbrev pub open_with :
      Bytes → Bytes → Bytes → Option c.Key × List CachedKey → Option Bytes × List CachedKey
  open_with iv tag encrypted (none, es) = (none, es)
  open_with iv tag encrypted (some key, es) =
      ((if length iv == 0 then none else c.unseal key iv (encrypted ++ tag)), es)

  abbrev pub open_parts :
      Option Bytes
      → Option Bytes
      → Option Bytes
      → Option Bytes
      → Bytes
      → List CachedKey
      → Option Bytes × List CachedKey
  open_parts (some salt) (some iv) (some tag) (some encrypted) p es =
      open_with iv tag encrypted (
        key_or (cached_key p (encode salt) es) (derived_key p (encode salt) (c.derive p salt) es)
          es)
  open_parts _ _ _ _ p es = (none, es)

  abbrev pub open_text : List Bytes → Bytes → List CachedKey → Option Bytes × List CachedKey
  open_text (salt ∷ iv ∷ tag ∷ encrypted ∷ []) p es =
      open_parts (decode salt) (decode iv) (decode tag) (decode encrypted) p es
  open_text _ p es = (none, es)

  unfoldable pub decrypt_aes256_gcm : Bytes → Bytes → List CachedKey → Option Bytes × List CachedKey
  decrypt_aes256_gcm ciphertext password es = open_text (split_on b':' ciphertext) password es

-- ===== src/Shared/Crypto/Opens.antt =====
-- Decrypt undoes Encrypt (go-shared/crypto.go).
use shipmates_oss.Prelude.{
  ℕ, zero, suc, ◌+◌, ◌-◌, ◌<◌, ◌≡◌, refl, sym, ap, ◌∙◌, inl, inr, true, false, Option, none, some,
  List, [], ◌∷◌, ◌++◌, ◌==◌, if◌then◌else◌, exists, length, take, drop, length-take, length-drop,
  All, Bool-cases, Option-cases, arith,
}
use shipmates_oss.Prelude.Bytes.{Bytes, split_on}
use shipmates_oss.Prelude.Hex.{encode, AreBytes, decode-encode, encode_free}
use shipmates_oss.Shared.Crypto.{
  Ciphers, ScryptCacheEntry, text_of, sealed, encrypt, of_parts, decrypt,
}
use shipmates_oss.Shared.Crypto.Cache.{IsSound, derive_key_with_cache_lem}

-- A part without the byte is cut off.
split_on_part :
    (b : ℕ) (s t : Bytes)
    → exists (λ c. c == b) s ≡ false
    → split_on b (s ++ (b ∷ t)) ≡ s ∷ split_on b t
split_on_part b [] t h = let same : (b == b) ≡ true = ground arith in rw same refl
split_on_part b (c ∷ s) t h = elim (Bool-cases (c == b)) [
  | inl e ↦ let h' : true ≡ false = rw e at h in cc
  | inr e ↦ rw (e, split_on_part b s t (rw e at h)) refl
]

split_on_last : (b : ℕ) (s : Bytes) → exists (λ c. c == b) s ≡ false → split_on b s ≡ s ∷ []
split_on_last b [] h = refl
split_on_last b (c ∷ s) h = elim (Bool-cases (c == b)) [
  | inl e ↦ let h' : true ≡ false = rw e at h in cc
  | inr e ↦ rw (e, split_on_last b s (rw e at h)) refl
]

module _ (c : Ciphers) where
  split-text_of :
      (salt iv tag ciphertext : Bytes)
      → AreBytes salt
      → AreBytes iv
      → AreBytes tag
      → AreBytes ciphertext
      → split_on b':' (text_of c salt iv tag ciphertext)
        ≡ encode salt ∷ encode iv ∷ encode tag ∷ encode ciphertext ∷ []
  split-text_of salt iv tag ciphertext a b d e =
      rw
        (
          split_on_part b':' (encode salt)
              (encode iv ++ (b':' ∷ (encode tag ++ (b':' ∷ encode ciphertext))))
              (encode_free salt a),
          split_on_part b':' (encode iv) (encode tag ++ (b':' ∷ encode ciphertext))
              (encode_free iv b),
          split_on_part b':' (encode tag) (encode ciphertext) (encode_free tag d),
          split_on_last b':' (encode ciphertext) (encode_free ciphertext e),
        )
        refl

encode_empty : (s : Bytes) → (length (encode s) == 0) ≡ (length s == 0)
encode_empty [] = refl
encode_empty (c ∷ s) = ground arith

take-drop : {A : Type 0} (n : ℕ) (xs : List A) → take n xs ++ drop n xs ≡ xs
take-drop zero xs = refl
take-drop (suc n) [] = refl
take-drop (suc n) (x ∷ xs) = ap (λ ys. x ∷ ys) (take-drop n xs)

All-take : {A : Type 0} (P : A → Type 0) (n : ℕ) (xs : List A) → All P xs → All P (take n xs)
All-take P zero xs h = tt
All-take P (suc n) [] h = tt
All-take P (suc n) (x ∷ xs) h = (h.0, All-take P n xs h.1)

All-drop : {A : Type 0} (P : A → Type 0) (n : ℕ) (xs : List A) → All P xs → All P (drop n xs)
All-drop P zero xs h = h
All-drop P (suc n) [] h = tt
All-drop P (suc n) (x ∷ xs) h = All-drop P n xs h.1

-- What the calls of the library do, as they are documented.
pub record AreReal (c : Ciphers) : Type 0 where
  pub opens :
      (key : c.Key) (iv plaintext : Bytes)
      → c.unseal key iv (c.seal key iv plaintext) ≡ some plaintext
  pub bytes :
      (key : c.Key) (iv plaintext : Bytes) → AreBytes plaintext → AreBytes (c.seal key iv plaintext)
  pub longer :
      (key : c.Key) (iv plaintext : Bytes)
      → length (c.seal key iv plaintext) ≡ length plaintext + c.overhead
  pub tag : 0 < c.overhead

module _ (c : Ciphers) (sort : List (ScryptCacheEntry c) → List (ScryptCacheEntry c))
    (password : Bytes) (now : ℕ) (es : List (ScryptCacheEntry c))
    (sound : IsSound c password es) where
  -- The parts of a text that Encrypt made
  parts_open :
      (salt iv tag encrypted plaintext : Bytes) (key : c.Key)
      → AreBytes salt
      → AreBytes iv
      → AreBytes tag
      → AreBytes encrypted
      → (length salt == 0) ≡ false
      → (length iv == 0) ≡ false
      → (length tag == 0) ≡ false
      → (length encrypted == 0) ≡ (length plaintext == 0)
      → c.derive password salt ≡ some key
      → c.unseal key iv (encrypted ++ tag) ≡ some plaintext
      → ((of_parts c sort
            (encode salt ∷ encode iv ∷ encode tag ∷ encode encrypted ∷ [])
            password
            now
            es).0
          ≡ (if length plaintext == 0 then none else some plaintext))
        × IsSound c password
            (of_parts c sort
              (encode salt ∷ encode iv ∷ encode tag ∷ encode encrypted ∷ [])
              password
              now
              es).1
  parts_open salt iv tag encrypted plaintext key a b d e na nb nd ne works opens =
      let (same_key, still) = derive_key_with_cache_lem c password sort salt now es a sound in
      let some_salt = encode_empty salt ∙ na in
      let some_iv = encode_empty iv ∙ nb in
      let some_tag = encode_empty tag ∙ nd in
      elim (Bool-cases (length plaintext == 0)) [
        | inl empty ↦
            rw (some_salt, some_iv, some_tag, encode_empty encrypted ∙ ne ∙ empty, empty)
              (refl, sound)
        | inr some_text ↦
            rw
              (
                some_salt,
                some_iv,
                some_tag,
                encode_empty encrypted ∙ ne ∙ some_text,
                some_text,
                decode-encode salt a,
                decode-encode iv b,
                decode-encode tag d,
                decode-encode encrypted e,
              )
              (rw (same_key, works, nb, opens) refl, rw (same_key, works) still)
      ]

-- Decrypt with the same password, from a cache whose entries for this password are true, gives what Encrypt was
-- given, and leaves such a cache, for a text of at least one byte; the text that Encrypt makes of the empty one is refused.
pub decrypt-encrypt :
    (c : Ciphers) (sort : List (ScryptCacheEntry c) → List (ScryptCacheEntry c))
    (password salt iv plaintext ciphertext : Bytes) (now : ℕ) (es : List (ScryptCacheEntry c))
    → AreReal c
    → AreBytes salt
    → AreBytes iv
    → AreBytes plaintext
    → (length salt ≡ 16) × (length iv ≡ 16)
    → IsSound c password es
    → encrypt c salt iv plaintext password ≡ some ciphertext
    → ((decrypt c sort ciphertext password now es).0
        ≡ (if length plaintext == 0 then none else some plaintext))
      × IsSound c password (decrypt c sort ciphertext password now es).1
unfolding encrypt decrypt
decrypt-encrypt c sort password salt iv plaintext ciphertext now es real a b d sizes sound h =
    elim (Option-cases (c.derive password salt)) [
      | inl fails ↦ let h' : ◌≡◌ {A = Option Bytes} none (some ciphertext) = rw fails at h in cc
      | inr (key, works) ↦
          let s = c.seal key iv plaintext in
          let n = length s - c.overhead in
          let h' : some (sealed c salt iv s) ≡ some ciphertext = rw works at h in
          let same : sealed c salt iv s ≡ ciphertext = cc in
          let all_bytes = real.bytes key iv plaintext d in
          let parts =
            split-text_of c salt iv (drop n s) (take n s) a b (All-drop _ n s all_bytes)
              (All-take _ n s all_bytes) in
          let l = real.longer key iv plaintext in
          let some_tag = real.tag in
          let size : length (take n s) ≡ length plaintext =
            let m = length-take n s in omega (arith, m, l) in
          let tag_size : (length (drop n s) == 0) ≡ false =
            let m = length-drop n s in ground arith in
          let opens : c.unseal key iv (take n s ++ drop n s) ≡ some plaintext =
            rw (take-drop n s) (real.opens key iv plaintext) in
          let r =
            parts_open c sort password now es sound salt iv (drop n s) (take n s) plaintext key a b
              (All-drop _ n s all_bytes) (All-take _ n s all_bytes)
              (let z = sizes.0 in ground arith) (let z = sizes.1 in ground arith) tag_size
              (ap (λ k. k == 0) size) works opens in
          rw (sym same, parts) r
    ]

-- ===== src/Tests/Shared.antt =====
-- Texts under a password. The cipher here puts the key and the nonce in the tag and leaves the text as it is.
use shipmates_oss.Prelude.{
  ℕ, ◌+◌, ◌≡◌, refl, none, some, List, [], ◌∷◌, ◌++◌, length, replicate, arith,
}
use shipmates_oss.Prelude.Bytes.{Bytes, codes}
use shipmates_oss.Prelude.Hex.{AreBytes}
use shipmates_oss.Shared.Crypto.{Ciphers, ScryptCacheEntry, encrypt, decrypt}
use shipmates_oss.Shared.Crypto.Cache.{IsSound}
use shipmates_oss.Shared.Crypto.Opens.{AreReal, decrypt-encrypt}

abbrev without_last : Bytes → Bytes
without_last [] = []
without_last (c ∷ []) = []
without_last (c ∷ d ∷ s) = c ∷ without_last (d ∷ s)

abbrev pub plain_cipher : Ciphers
plain_cipher = record {
  Key = Bytes;
  sum256 = λ p. p;
  derive = λ p s. some p;
  seal = λ k iv s. s ++ (7 ∷ []);
  unseal = λ k iv s. some (without_last s);
  overhead = 1;
}

without_last-append : (s : Bytes) (c : ℕ) → without_last (s ++ (c ∷ [])) ≡ s
without_last-append [] c = refl
without_last-append (d ∷ []) c = refl
without_last-append (d ∷ e ∷ s) c = let rest = without_last-append (e ∷ s) c in cc

bytes_tag : (s : Bytes) → AreBytes s → AreBytes (s ++ (7 ∷ []))
bytes_tag [] h = (omega arith, tt)
bytes_tag (c ∷ s) h = (h.0, bytes_tag s h.1)

length_tag : (s : Bytes) → length (s ++ (7 ∷ [])) ≡ length s + 1
length_tag [] = omega arith
length_tag (c ∷ s) = let l = length_tag s in omega (arith, l)

plain_cipher-AreReal : AreReal plain_cipher
plain_cipher-AreReal = record {
  opens = λ k iv s. let e = without_last-append s 7 in cc;
  bytes = λ k iv s h. bytes_tag s h;
  longer = λ k iv s. length_tag s;
  tag = omega arith;
}

abbrev sixteen : Bytes
sixteen = replicate 16 9

sixteen-AreBytes : AreBytes sixteen
sixteen-AreBytes = ground arith

abbrev as_it_is : List (ScryptCacheEntry plain_cipher) → List (ScryptCacheEntry plain_cipher)
as_it_is es = es

abbrev ciphertext : Bytes
ciphertext = codes "09090909090909090909090909090909:09090909090909090909090909090909:07:6869"

encrypts : encrypt plain_cipher sixteen sixteen (codes "hi") (codes "pw") ≡ some ciphertext
unfolding encrypt
encrypts = refl

decrypt-encrypt_example :
    ((decrypt plain_cipher as_it_is ciphertext (codes "pw") 5 []).0 ≡ some (codes "hi"))
    × IsSound plain_cipher
        (codes "pw")
        (decrypt plain_cipher as_it_is ciphertext (codes "pw") 5 []).1
decrypt-encrypt_example =
    decrypt-encrypt plain_cipher as_it_is (codes "pw") sixteen sixteen (codes "hi") ciphertext 5 []
      plain_cipher-AreReal sixteen-AreBytes sixteen-AreBytes (omega arith, (omega arith, tt))
      (refl, refl) tt encrypts

empty_refused : (decrypt plain_cipher as_it_is (codes "09:09:07:") (codes "pw") 5 []).0 ≡ none
unfolding decrypt
empty_refused = refl

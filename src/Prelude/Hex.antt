-- ===== src/Prelude/Hex.antt =====
-- Bytes as hexadecimal digits: what the code uses of the package encoding/hex.
use shipmates_oss.Prelude.{
  ℕ, ◌+◌, ◌-◌, ◌*◌, ◌/◌, ◌%◌, ◌<◌, ◌≡◌, refl, false, ◌&&◌, Option, none, some, [], ◌∷◌, leb, ltb,
  ◌==◌, if◌then◌else◌, exists, All, if_cases, arith,
}
use shipmates_oss.Prelude.Bytes.{Bytes}

abbrev pub hex : ℕ → Option ℕ
hex c =
    if leb b'0' c && leb c b'9'
    then some (c - b'0')
    else if leb b'a' c && leb c b'f'
    then some (c - b'a' + 10)
    else if leb b'A' c && leb c b'F'
    then some (c - b'A' + 10)
    else none

abbrev pub hex_pair : Option ℕ → Option ℕ → Option ℕ
hex_pair (some h) (some l) = some (h * 16 + l)
hex_pair _ _ = none

abbrev pub digit : ℕ → ℕ
digit d = if ltb d 10 then d + b'0' else d - 10 + b'a'

-- hex.EncodeToString
abbrev pub encode : Bytes → Bytes
encode [] = []
encode (c ∷ s) = digit (c / 16) ∷ digit (c % 16) ∷ encode s

abbrev pub onto : Option ℕ → Option Bytes → Option Bytes
onto (some c) (some s) = some (c ∷ s)
onto _ _ = none

-- hex.DecodeString
abbrev pub decode : Bytes → Option Bytes
decode [] = some []
decode (c ∷ []) = none
decode (h ∷ l ∷ s) = onto (hex_pair (hex h) (hex l)) (decode s)

abbrev pub AreBytes : Bytes → Type 0
AreBytes = All (λ c. c < 256)

hex-digit : (d : ℕ) → d < 16 → hex (digit d) ≡ some d
hex-digit d h = ground arith

pub decode-encode : (s : Bytes) → AreBytes s → decode (encode s) ≡ some s
decode-encode [] h = refl
decode-encode (c ∷ s) h =
    let high : c / 16 < 16 = let b = h.0 in omega (arith, b) in
    let low : c % 16 < 16 = omega arith in
    let whole : c / 16 * 16 + c % 16 ≡ c = omega arith in
    rw (hex-digit (c / 16) high, hex-digit (c % 16) low, decode-encode s h.1, whole) refl

abbrev IsNibble : Option ℕ → Type 0
IsNibble none = Unit
IsNibble (some d) = d < 16

hex-IsNibble : (c : ℕ) → IsNibble (hex c)
hex-IsNibble c =
    if_cases IsNibble (leb b'0' c && leb c b'9') (some (c - b'0')) _ (λ e. ground arith)
      (λ e.
        if_cases IsNibble (leb b'a' c && leb c b'f') (some (c - b'a' + 10)) _ (λ e. ground arith)
          (λ e.
            if_cases IsNibble (leb b'A' c && leb c b'F') (some (c - b'A' + 10)) none
              (λ e. ground arith) (λ e. tt)))

abbrev pub MadeOfBytes : Option Bytes → Type 0
MadeOfBytes none = Unit
MadeOfBytes (some s) = AreBytes s

onto-MadeOfBytes :
    (h l : Option ℕ) (s : Option Bytes)
    → IsNibble h
    → IsNibble l
    → MadeOfBytes s
    → MadeOfBytes (onto (hex_pair h l) s)
onto-MadeOfBytes (some h) (some l) (some s) p q r = (omega (arith, p, q), r)
onto-MadeOfBytes (some h) (some l) none p q r = tt
onto-MadeOfBytes (some h) none s p q r = tt
onto-MadeOfBytes none l s p q r = tt

pub decode-MadeOfBytes : (s : Bytes) → MadeOfBytes (decode s)
decode-MadeOfBytes [] = tt
decode-MadeOfBytes (c ∷ []) = tt
decode-MadeOfBytes (h ∷ l ∷ s) =
    onto-MadeOfBytes (hex h) (hex l) (decode s) (hex-IsNibble h) (hex-IsNibble l)
      (decode-MadeOfBytes s)

-- No digit is a colon.
pub encode_free : (s : Bytes) → AreBytes s → exists (λ c. c == b':') (encode s) ≡ false
encode_free [] h = refl
encode_free (c ∷ s) h =
    let rest = encode_free s h.1 in
    let high : (digit (c / 16) == b':') ≡ false = let b = h.0 in ground arith in
    let low : (digit (c % 16) == b':') ≡ false = ground arith in rw (high, low, rest) refl

-- ===== src/Conversation/Router/Code.antt =====
-- The form of a Soundex code (bot/conversation/router.go).
use shipmates_oss.Prelude.{
  ℕ, zero, suc, ◌≤◌, ◌≡◌, refl, ◌⊎◌, inl, inr, Bool, true, false, not, ◌&&◌, [], ◌∷◌, ◌++◌, ◌==◌,
  if◌then◌else◌, length, length-append, length-take, take, select, Bool-cases, All, In-All,
  select-In, arith,
}
use shipmates_oss.Prelude.Bytes.{Bytes, codes}
use shipmates_oss.Conversation.Router.{soundex_code, soundex_digits, soundex_of, soundex, is_upper}

-- From 0 to 6.
abbrev pub IsDigit : ℕ → Type 0
IsDigit c = (48 ≤ c) × (c ≤ 54)

-- A letter or 0, and three digits.
pub record IsCode (s : Bytes) : Type 0 where
  pub head : ℕ
  pub digits : Bytes
  pub shape : s ≡ head ∷ digits
  pub letter : (is_upper head ≡ true) ⊎ (head ≡ b'0')
  pub three : length digits ≡ 3
  pub each : All IsDigit digits

one_of_six :
    (a b c d e f : Bool)
    → ((if a
          then 49
          else if b
          then 50
          else if c
          then 51
          else if d
          then 52
          else if e
          then 53
          else if f
          then 54
          else 0)
        == 0)
      ≡ false
    → IsDigit (
        if a
        then 49
        else if b
        then 50
        else if c
        then 51
        else if d
        then 52
        else if e
        then 53
        else if f
        then 54
        else 0)
one_of_six true b c d e f h = (omega arith, omega arith)
one_of_six false true c d e f h = (omega arith, omega arith)
one_of_six false false true d e f h = (omega arith, omega arith)
one_of_six false false false true e f h = (omega arith, omega arith)
one_of_six false false false false true f h = (omega arith, omega arith)
one_of_six false false false false false true h = (omega arith, omega arith)
one_of_six false false false false false false h = cc

soundex_code-IsDigit : (c : ℕ) → (soundex_code c == 0) ≡ false → IsDigit (soundex_code c)
soundex_code-IsDigit c = one_of_six _ _ _ _ _ _

soundex_digits-IsDigit : (room last : ℕ) (s : Bytes) → All IsDigit (soundex_digits room last s)
unfolding soundex_digits
soundex_digits-IsDigit zero last s = tt
soundex_digits-IsDigit (suc room) last [] = tt
soundex_digits-IsDigit (suc room) last (c ∷ s) =
    elim (Bool-cases (not (soundex_code c == 0) && not (soundex_code c == last))) [
      | inl e ↦
          let coded : (soundex_code c == 0) ≡ false = ground arith in
          rw e (soundex_code-IsDigit c coded, soundex_digits-IsDigit room (soundex_code c) s)
      | inr e ↦ rw e (
          soundex_digits-IsDigit (suc room) (if soundex_code c == 0 then last else soundex_code c)
            s)
    ]

All-padded : (n : ℕ) (s : Bytes) → All IsDigit s → All IsDigit (take n (s ++ codes "0000"))
All-padded zero s p = tt
All-padded (suc n) (c ∷ s) p = (p.0, All-padded n s p.1)
All-padded (suc n) [] p = taken (suc n) (codes "0000") (
  (omega arith, omega arith),
  ((omega arith, omega arith), ((omega arith, omega arith), ((omega arith, omega arith), tt))),
)
  where
    taken : (n : ℕ) (s : Bytes) → All IsDigit s → All IsDigit (take n s)
    taken zero s q = tt
    taken (suc n) [] q = tt
    taken (suc n) (c ∷ s) q = (q.0, taken n s q.1)

length-padded : (s : Bytes) → length (take 3 (s ++ codes "0000")) ≡ 3
length-padded s =
    let l = length-take 3 (s ++ codes "0000") in
    let m = length-append s (codes "0000") in omega (arith, l, m)

soundex_of-IsCode : (s : Bytes) → All (λ c. is_upper c ≡ true) s → IsCode (soundex_of s)
soundex_of-IsCode [] p = record {
  head = b'0';
  digits = codes "000";
  shape = refl;
  letter = inr refl;
  three = refl;
  each = All-padded 3 [] tt;
}
soundex_of-IsCode (c ∷ s) p = record {
  head = c;
  digits = take 3 (soundex_digits 3 (soundex_code c) s ++ codes "0000");
  shape = refl;
  letter = inl p.0;
  three = length-padded (soundex_digits 3 (soundex_code c) s);
  each =
      All-padded 3 (soundex_digits 3 (soundex_code c) s)
        (soundex_digits-IsDigit 3 (soundex_code c) s);
}

-- soundex gives every text, of any length, a code of four characters: an upper-case letter, or 0 where the text
-- has none, and three digits from 0 to 6.
pub soundex-IsCode :
    (to_lower to_upper : Bytes → Bytes) (str : Bytes) → IsCode (soundex to_lower to_upper str)
unfolding soundex
soundex-IsCode to_lower to_upper str =
    soundex_of-IsCode (select is_upper (to_upper str))
      (In-All (λ c. is_upper c ≡ true) _ λ c m. (select-In is_upper (to_upper str) m).1)

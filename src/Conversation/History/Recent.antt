-- ===== src/Conversation/History/Recent.antt =====
-- What get of bot/conversation/history.go answers.
use shipmates_oss.Prelude.{
  ℕ, zero, suc, ◌-◌, ◌≤◌, ◌≡◌, refl, sym, ap, ◌∙◌, inl, inr, true, false, List, [], ◌∷◌, ◌++◌, ltb,
  if◌then◌else◌, length, length-append, length-drop, take, drop, Bool-cases, arith,
}
use shipmates_oss.Prelude.Bytes.{Bytes, bytes_eq}
use shipmates_oss.Prelude.Prefixes.{bytes_eq→eq}
use shipmates_oss.Conversation.History.{
  ChatMessage, HistoryEntry, max_messages_per_agent, get_history_key, has_key, messages_of, change,
  touched, last_only, appended, Call, gets, adds,
}

-- The last 20 of a list.
abbrev pub recent : List ChatMessage → List ChatMessage
recent ms = drop (length ms - max_messages_per_agent) ms

take_whole : {A : Type 0} (n : ℕ) (xs : List A) → length xs ≡ n → take n xs ≡ xs
take_whole zero [] h = refl
take_whole zero (x ∷ xs) h = absurd (omega (arith, h))
take_whole (suc n) [] h = refl
take_whole (suc n) (x ∷ xs) h = ap (λ ys. x ∷ ys) (take_whole n xs (omega (arith, h)))

drop-append :
    {A : Type 0} (n : ℕ) (xs ys : List A) → n ≤ length xs → drop n (xs ++ ys) ≡ drop n xs ++ ys
drop-append zero xs ys h = refl
drop-append (suc n) [] ys h = absurd (omega (arith, h))
drop-append (suc n) (x ∷ xs) ys h = drop-append n xs ys (omega (arith, h))

drop-drop : {A : Type 0} (n : ℕ) (xs : List A) → drop 1 (drop n xs) ≡ drop (suc n) xs
drop-drop zero xs = refl
drop-drop (suc n) [] = refl
drop-drop (suc n) (x ∷ xs) = drop-drop n xs

pub last_only-recent : (ms : List ChatMessage) → last_only ms ≡ recent ms
last_only-recent ms = elim (Bool-cases (ltb 20 (length ms))) [
  | inl e ↦ rw e (
      take_whole 20 (drop (length ms - 20) ms)
        (let l = length-drop (length ms - 20) ms in ground arith))
  | inr e ↦ let z : length ms - 20 ≡ 0 = ground arith in rw (e, z) refl
]

-- A message after the last 20 of a list is among the last 20 with it.
pub recent-append :
    (ms : List ChatMessage) (m : ChatMessage)
    → recent (recent ms ++ (m ∷ [])) ≡ recent (ms ++ (m ∷ []))
recent-append ms m = elim (Bool-cases (ltb 20 (length ms))) [
  | inl e ↦
      let a = length ms - 20 in
      let d = length-drop a ms in
      let l = length-append ms (m ∷ []) in
      let twenty : length (drop a ms) ≡ 20 = ground arith in
      let one = length-append (recent ms) (m ∷ []) in
      let past : length (recent ms ++ (m ∷ [])) - 20 ≡ 1 = omega (arith, one, twenty) in
      let next : length (ms ++ (m ∷ [])) - 20 ≡ suc a = ground arith in
      ap (λ n. drop n (recent ms ++ (m ∷ []))) past
      ∙ drop-append 1 (recent ms) (m ∷ []) (omega (arith, twenty))
      ∙ ap (λ t. t ++ (m ∷ [])) (drop-drop a ms)
      ∙ sym (drop-append (suc a) ms (m ∷ []) (ground arith))
      ∙ sym (ap (λ n. drop n (ms ++ (m ∷ []))) next)
  | inr e ↦ let z : length ms - 20 ≡ 0 = ground arith in rw z refl
]

-- The messages that a call adds to a key, and those that a sequence of calls does.
abbrev pub logged : Bytes → Call → List ChatMessage
logged k (gets w u a now) = []
logged k (adds w u a role content now) =
    if bytes_eq (get_history_key w u a) k
    then record { role = role; content = content } ∷ []
    else []

abbrev pub log : Bytes → List Call → List ChatMessage
log k [] = []
log k (c ∷ cs) = logged k c ++ log k cs

pub messages_without :
    (k : Bytes) (h : List HistoryEntry) → has_key k h ≡ false → messages_of k h ≡ []
messages_without k [] p = refl
messages_without k (e ∷ h) p = elim (Bool-cases (bytes_eq e.key k)) [
  | inl q ↦ let p' : true ≡ false = rw q at p in cc
  | inr q ↦ rw q (messages_without k h (rw q at p))
]

pub change_here :
    (k : Bytes) (m : ChatMessage) (now : ℕ) (h : List HistoryEntry)
    → has_key k h ≡ true
    → messages_of k (change k (appended m now) h) ≡ last_only (messages_of k h ++ (m ∷ []))
change_here k m now [] p = cc
change_here k m now (e ∷ h) p = elim (Bool-cases (bytes_eq e.key k)) [
  | inl q ↦ rw (q, q) refl
  | inr q ↦ rw (q, q) (change_here k m now h (rw q at p))
]

pub change-touched :
    (k l : Bytes) (now : ℕ) (h : List HistoryEntry)
    → messages_of l (change k (touched now) h) ≡ messages_of l h
change-touched k l now [] = refl
change-touched k l now (e ∷ h) = elim (Bool-cases (bytes_eq e.key k)) [
  | inl q ↦ rw (q, change-touched k l now h) refl
  | inr q ↦ rw (q, change-touched k l now h) refl
]

pub change_elsewhere :
    (k l : Bytes) (m : ChatMessage) (now : ℕ) (h : List HistoryEntry)
    → bytes_eq k l ≡ false
    → messages_of l (change k (appended m now) h) ≡ messages_of l h
change_elsewhere k l m now [] p = refl
change_elsewhere k l m now (e ∷ h) p = elim (Bool-cases (bytes_eq e.key k)) [
  | inl q ↦
      let other : bytes_eq e.key l ≡ false = ap (λ x. bytes_eq x l) (bytes_eq→eq e.key k q) ∙ p in
      rw (q, other, change_elsewhere k l m now h p) refl
  | inr q ↦ rw (q, change_elsewhere k l m now h p) refl
]

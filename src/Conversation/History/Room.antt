-- ===== src/Conversation/History/Room.antt =====
-- While the history of bot/conversation/history.go holds keys of a short list only, a new key finds room.
use shipmates_oss.Prelude.{
  suc, ◌≤◌, ◌<◌, ◌≡◌, refl, sym, ap, ◌∙◌, inl, inr, true, false, List, [], ◌∷◌, if◌then◌else◌,
  length, exists, Bool-cases, All, arith,
}
use shipmates_oss.Prelude.Bytes.{Bytes, bytes_eq}
use shipmates_oss.Prelude.Prefixes.{bytes_eq→eq}
use shipmates_oss.Conversation.History.{HistoryEntry, has_key, change}

abbrev pub IsAmong : List Bytes → Bytes → Type 0
IsAmong ks k = exists (bytes_eq k) ks ≡ true

unfoldable remove : Bytes → List Bytes → List Bytes
remove k [] = []
remove k (l ∷ ls) = let rest = remove k ls in if bytes_eq k l then ls else l ∷ rest

length-remove :
    (k : Bytes) (ls : List Bytes) → IsAmong ls k → suc (length (remove k ls)) ≡ length ls
unfolding remove
length-remove k [] p = cc
length-remove k (l ∷ ls) p = elim (Bool-cases (bytes_eq k l)) [
  | inl q ↦ rw q refl
  | inr q ↦ rw q (ap suc (length-remove k ls (rw q at p)))
]

remove-IsAmong :
    (k x : Bytes) (ls : List Bytes) → bytes_eq x k ≡ false → IsAmong ls x → IsAmong (remove k ls) x
unfolding remove
remove-IsAmong k x [] d p = cc
remove-IsAmong k x (l ∷ ls) d p = elim (Bool-cases (bytes_eq k l)) [
  | inl q ↦
      let other : bytes_eq x l ≡ false = ap (bytes_eq x) (sym (bytes_eq→eq k l q)) ∙ d in
      rw q (rw other at p)
  | inr q ↦ elim (Bool-cases (bytes_eq x l)) [
    | inl r ↦ rw (q, r) refl
    | inr r ↦ rw (q, r) (remove-IsAmong k x ls d (rw r at p))
  ]
]

-- Each key once.
abbrev pub Distinct : List HistoryEntry → Type 0
Distinct [] = Unit
Distinct (e ∷ h) = (has_key e.key h ≡ false) × Distinct h

-- Every key is among some keys.
abbrev pub Within : List Bytes → List HistoryEntry → Type 0
Within ks h = All (λ (e : HistoryEntry). IsAmong ks e.key) h

without_key :
    (k : Bytes) (ks : List Bytes) (h : List HistoryEntry)
    → has_key k h ≡ false
    → Within ks h
    → Within (remove k ks) h
without_key k ks [] p w = tt
without_key k ks (e ∷ h) p w = elim (Bool-cases (bytes_eq e.key k)) [
  | inl q ↦ let p' : true ≡ false = rw q at p in cc
  | inr q ↦ (remove-IsAmong k e.key ks q w.0, without_key k ks h (rw q at p) w.1)
]

length-Within :
    (ks : List Bytes) (h : List HistoryEntry) → Distinct h → Within ks h → length h ≤ length ks
length-Within ks [] d w = omega arith
length-Within ks (e ∷ h) d w =
    let rest = length-Within (remove e.key ks) h d.1 (without_key e.key ks h d.0 w.1) in
    let l = length-remove e.key ks w.0 in omega (arith, rest, l)

-- A key of the list that has no entry leaves the history shorter than the list.
pub room_for :
    (k : Bytes) (ks : List Bytes) (h : List HistoryEntry)
    → has_key k h ≡ false
    → IsAmong ks k
    → Distinct h
    → Within ks h
    → length h < length ks
room_for k ks h p among d w =
    let rest = length-Within (remove k ks) h d (without_key k ks h p w) in
    let l = length-remove k ks among in omega (arith, rest, l)

module _ (f : HistoryEntry → HistoryEntry) (same_key : (e : HistoryEntry) → (f e).key ≡ e.key)
    (k : Bytes) where
  has_key-change : (l : Bytes) (h : List HistoryEntry) → has_key l (change k f h) ≡ has_key l h
  has_key-change l [] = refl
  has_key-change l (e ∷ h) = elim (Bool-cases (bytes_eq e.key k)) [
    | inl q ↦ rw (q, same_key e, has_key-change l h) refl
    | inr q ↦ rw (q, has_key-change l h) refl
  ]

  pub change-Distinct : (h : List HistoryEntry) → Distinct h → Distinct (change k f h)
  change-Distinct [] d = tt
  change-Distinct (e ∷ h) d = elim (Bool-cases (bytes_eq e.key k)) [
    | inl q ↦ rw q (
      ap (λ l. has_key l (change k f h)) (same_key e) ∙ has_key-change e.key h ∙ d.0,
      change-Distinct h d.1,
    )
    | inr q ↦ rw q (has_key-change e.key h ∙ d.0, change-Distinct h d.1)
  ]

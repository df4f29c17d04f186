-- ===== src/Engine/Blocks/Bounds.antt =====
-- What every delegation is that ExtractDelegationBlocks (bot/orchestrator/engine/parser.go) returns.
use shipmates_oss.Prelude.{
  ℕ, zero, suc, ◌≤◌, ◌<◌, ◌≡◌, refl, ap, subst, ◌⊎◌, inl, inr, Bool, true, not, ◌&&◌, ◌||◌, Option,
  none, some, List, [], ◌∷◌, leb, ltb, ◌==◌, length, All, Bool-cases, &&→both, ltb→lt, leb→le,
  arith,
}
use shipmates_oss.Prelude.Bytes.{Bytes, codes, bytes_eq, trim_space}
use shipmates_oss.Prelude.Prefixes.{bytes_eq→eq}
use shipmates_oss.Engine.Json.{Numbers, Json, Items, Fields, nil, cons, get, text_of, number_of}
use shipmates_oss.Engine.Text.{
  strip_markdown_fences, extract_json_substring, strip_trailing_commas, tagged,
}
use shipmates_oss.Engine.Blocks.{
  DelegationBlock, then_some, only_if, whole, count_items, items_of, onto_ids, short_ids, or_no_ids,
  mode_or_empty, block_of, read_block, taken, read_blocks, extract_delegation_blocks,
}

-- What holds of the value of an option, where it has one.
abbrev pub Holds : {A : Type 0} → (A → Type 0) → Option A → Type 0
Holds P none = Unit
Holds P (some a) = P a

then_some-Holds :
    {A B : Type 0} (P : B → Type 0) (o : Option A) (k : A → Option B)
    → ((a : A) → o ≡ some a → Holds P (k a))
    → Holds P (then_some o k)
then_some-Holds P none k h = tt
then_some-Holds P (some a) k h = h a refl

kept :
    {A : Type 0} (p : A → Bool) (o : Option A) {a : A}
    → only_if p o ≡ some a
    → (o ≡ some a) × (p a ≡ true)
kept p none {a} h = let h' : ◌≡◌ {A = Option _} none (some a) = h in cc
kept p (some b) {a} h = elim (Bool-cases (p b)) [
  | inl e ↦
      let h' : some b ≡ some a = rw e at h in
      let same : b ≡ a = cc in (h', subst (λ c. p c ≡ true) same e)
  | inr e ↦ let h' : ◌≡◌ {A = Option _} none (some a) = rw e at h in cc
]

not_empty : (s : Bytes) → not (length s == 0) ≡ true → 0 < length s
not_empty [] h = cc
not_empty (c ∷ s) h = omega arith

module _ (n : Numbers) where
  -- Of the modes, or none.
  abbrev pub IsMode : Bytes → Type 0
  IsMode s = (s ≡ []) ⊎ ((s ≡ codes "summary") ⊎ ((s ≡ codes "diff") ⊎ (s ≡ codes "full")))

  pub record IsBounded (b : DelegationBlock n) : Type 0 where
    pub short_id : length b.to_agent_id < 100
    pub described : 0 < length b.description
    pub short_description : length b.description < 10000
    pub percent : Holds (λ p. p ≤ 100) b.priority
    pub few_ids : length b.blocked_by ≤ 50
    pub ids_short : All (λ (id : Bytes). length id < 100) b.blocked_by
    pub cost_positive : Holds (λ x. n.is_positive x ≡ true) b.max_cost_usd
    pub known_mode : IsMode b.context_mode

  -- What the ids of a list of values are.
  abbrev Ids : Items n → List Bytes → Type 0
  Ids vs ids = (length ids ≡ count_items n vs) × All (λ (id : Bytes). length id < 100) ids

  onto_ids-Ids :
      (v : Option Bytes) (vs : Items n) (ids : Option (List Bytes))
      → Holds (λ s. length s < 100) v
      → Holds (Ids vs) ids
      → (j : Json n) → Holds (Ids (cons j vs)) (onto_ids n v ids)
  onto_ids-Ids none vs ids h k j = tt
  onto_ids-Ids (some s) vs none h k j = tt
  onto_ids-Ids (some s) vs (some ids) h k j = (ap suc k.0, (h, k.1))

  only_short :
      (o : Option Bytes)
      → Holds (λ (s : Bytes). length s < 100) (only_if (λ s. ltb (length s) 100) o)
  only_short none = tt
  only_short (some s) = elim (Bool-cases (ltb (length s) 100)) [
    | inl e ↦ rw e (ltb→lt _ _ e)
    | inr e ↦ rw e tt
  ]

  short_ids-Ids : (vs : Items n) → Holds (Ids vs) (short_ids n vs)
  short_ids-Ids nil = (refl, tt)
  short_ids-Ids (cons v vs) =
      onto_ids-Ids _ vs (short_ids n vs) (only_short (text_of n (some v))) (short_ids-Ids vs) v

  abbrev FewIds : List Bytes → Type 0
  FewIds ids = (length ids ≤ 50) × All (λ (id : Bytes). length id < 100) ids

  few :
      (vs : Items n)
      → count_items n vs ≤ 50
      → (ids : Option (List Bytes)) → Holds (Ids vs) ids
      → Holds FewIds ids
  few vs le none h = tt
  few vs le (some ids) h = let l = h.0 in (omega arith, h.1)

  or_none-FewIds : (ids : Option (List Bytes)) → Holds FewIds ids → FewIds (or_no_ids n ids)
  or_none-FewIds none h = (omega arith, tt)
  or_none-FewIds (some ids) h = h

  abbrev few_items : Option (Items n) → Option (Items n)
  few_items = only_if (λ vs. leb (count_items n vs) 50)

  blocked-FewIds :
      (o : Option (Items n)) → FewIds (or_no_ids n (then_some (few_items o) (short_ids n)))
  blocked-FewIds o = or_none-FewIds (then_some (few_items o) (short_ids n)) (
      then_some-Holds FewIds (few_items o) (short_ids n) λ vs e.
        few vs (leb→le (count_items n vs) 50 (kept (λ vs. leb (count_items n vs) 50) o e).1)
          (short_ids n vs) (short_ids-Ids vs))

  mode_or_empty-IsMode : (o : Option Bytes) → IsMode (mode_or_empty n o)
  mode_or_empty-IsMode none = inl refl
  mode_or_empty-IsMode (some s) = elim (Bool-cases (bytes_eq s (codes "summary"))) [
    | inl e ↦ rw e (inr (inl (bytes_eq→eq s _ e)))
    | inr e ↦ elim (Bool-cases (bytes_eq s (codes "diff"))) [
      | inl k ↦ rw (e, k) (inr (inr (inl (bytes_eq→eq s _ k))))
      | inr k ↦ elim (Bool-cases (bytes_eq s (codes "full"))) [
        | inl j ↦ rw (e, k, j) (inr (inr (inr (bytes_eq→eq s _ j))))
        | inr j ↦ rw (e, k, j) (inl refl)
      ]
    ]
  ]

  positive : (o : Option n.Number) → Holds (λ x. n.is_positive x ≡ true) (only_if n.is_positive o)
  positive none = tt
  positive (some x) = elim (Bool-cases (n.is_positive x)) [ inl e ↦ rw e e | inr e ↦ rw e tt ]

  module _
      (to_int_le : (x : n.Number)
        → n.at_least 0 x ≡ true
        → n.at_most 100 x ≡ true
        → n.to_int x ≤ 100) where
    percents :
        (o : Option n.Number)
        → Holds (λ p. p ≤ 100) (whole n (only_if (λ x. n.at_least 0 x && n.at_most 100 x) o))
    percents none = tt
    percents (some x) = elim (Bool-cases (n.at_least 0 x && n.at_most 100 x)) [
      | inl e ↦ let b = &&→both _ _ e in rw e (to_int_le x b.0 b.1)
      | inr e ↦ rw e tt
    ]

    block-IsBounded : (parsed : Fields n) → Holds IsBounded (block_of n parsed)
    unfolding block_of
    block-IsBounded parsed =
        let id_text = text_of n (get n (codes "toAgentId") parsed) in
        let description_text = text_of n (get n (codes "description") parsed) in
        let fits = λ (s : Bytes). not (length s == 0) && ltb (length s) 10000 in
        then_some-Holds IsBounded (only_if (λ s. ltb (length s) 100) id_text) _ λ id short.
          then_some-Holds IsBounded (only_if fits description_text) _ λ description long.
            let both : (not (length description == 0) ≡ true)
                × (ltb (length description) 10000 ≡ true) =
              &&→both _ _ (kept fits description_text long).1 in
            let few = blocked-FewIds (items_of n (get n (codes "blockedBy") parsed)) in
            record {
              short_id = ltb→lt _ _ (kept (λ s. ltb (length s) 100) id_text short).1;
              described = not_empty description both.0;
              short_description = ltb→lt _ _ both.1;
              percent = percents (number_of n (get n (codes "priority") parsed));
              few_ids = few.0;
              ids_short = few.1;
              cost_positive = positive (number_of n (get n (codes "maxCostUsd") parsed));
              known_mode = mode_or_empty-IsMode (text_of n (get n (codes "contextMode") parsed));
            }

    module _ (unmarshal : Bytes → Option (Fields n)) where
      read-IsBounded : (between : Bytes) → Holds IsBounded (read_block n unmarshal between)
      unfolding read_block
      read-IsBounded between =
          then_some-Holds IsBounded
            (only_if (λ s. not ((length s == 0) || ltb 5000 (length s)))
              (some (trim_space between)))
            _
            λ content e.
              then_some-Holds IsBounded (extract_json_substring (strip_markdown_fences content)) _
                λ json k.
                  then_some-Holds IsBounded (unmarshal (strip_trailing_commas json)) (block_of n)
                    λ parsed j. block-IsBounded parsed

      abbrev AtMost : ℕ → List (DelegationBlock n) → Type 0
      AtMost left blocks = (length blocks ≤ left) × All IsBounded blocks

      taken-AtMost :
          (left : ℕ) (o : Option (DelegationBlock n)) (blocks rest : List (DelegationBlock n))
          → Holds IsBounded o
          → AtMost left blocks
          → AtMost (suc left) rest
          → AtMost (suc left) (taken n unmarshal o blocks rest)
      taken-AtMost left none blocks rest b h k = k
      taken-AtMost left (some x) blocks rest b h k = let l = h.0 in (omega arith, (b, h.1))

      blocks-AtMost :
          (left : ℕ) (matches : List Bytes) → AtMost left (read_blocks n unmarshal left matches)
      blocks-AtMost zero matches = (omega arith, tt)
      blocks-AtMost (suc left) [] = (omega arith, tt)
      blocks-AtMost (suc left) (m ∷ matches) =
          taken-AtMost left (read_block n unmarshal m) _ _ (read-IsBounded m)
            (blocks-AtMost left matches) (blocks-AtMost (suc left) matches)

      -- Where a number from 0 to 100 becomes at most 100 as an integer, ExtractDelegationBlocks returns at most ten
      -- delegations: each has an id of less than 100 bytes, a description of 1 to 9999 bytes, a priority, if any, of
      -- at most 100, at most 50 ids that it waits for, all of less than 100 bytes, a positive cost limit, if any, and
      -- a context mode that is empty or one of the three.
      pub extract_delegation_blocks-IsBounded :
          (raw : Bytes)
          → (length (extract_delegation_blocks n unmarshal raw) ≤ 10)
            × All IsBounded (extract_delegation_blocks n unmarshal raw)
      unfolding extract_delegation_blocks
      extract_delegation_blocks-IsBounded raw = elim (Bool-cases (ltb 100000 (length raw))) [
        | inl e ↦ rw e (omega arith, tt)
        | inr e ↦ rw e (blocks-AtMost 10 (tagged 0 raw))
      ]

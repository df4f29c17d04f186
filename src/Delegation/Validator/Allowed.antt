-- ===== src/Delegation/Validator/Allowed.antt =====
-- Exactly which delegations ValidateDelegation allows (bot/delegation/validator.go).
use Prim.Native.String.{String, len}
use shipmates_oss.Prelude.{
  ◌≤◌, ◌≡◌, ◌≢◌, ◌⊎◌, ◌↔◌, inl, inr, refl, true, false, Option, none, some, List, [], ◌∷◌, arith,
  str_eq, In, Bool-cases, exists-In, exists-witness, str_eq_refl, str_eq→eq, subst, ltb, str_ne,
  str_eq_ne,
}
use shipmates_oss.Prelude.Int.{ℤ, ◌≤ℤ◌}
use shipmates_oss.Delegation.Validator.{
  AgentForValidation, validate_delegation, role_can_delegate_to, role_hierarchy, is_lowest,
  off_allowlist, exceeds,
}

-- What a delegation must meet, said without the code's order of tests.
pub record MayDelegate (from to : AgentForValidation) (description : String)
    (max_cost_usd : Option ℤ) : Type 0 where
  pub apart : from.id ≢ to.id
  pub ranks :
      ((from.role ≡ "lead") × ((to.role ≡ "senior") ⊎ (to.role ≡ "junior")))
      ⊎ ((from.role ≡ "senior") × (to.role ≡ "junior"))
  pub listed : (from.can_delegate_to ≡ []) ⊎ In to.id from.can_delegate_to
  pub affordable : (cost : ℤ) → max_cost_usd ≡ some cost → cost ≤ℤ from.max_cost_per_task
  pub described : (1 ≤ len description) × (len description ≤ 2000)

module _ (from to : AgentForValidation) (description : String) where
  -- The tests, in the order of the code.
  record Passes (max_cost_usd : Option ℤ) : Type 0 where
    ids : str_eq from.id to.id ≡ false
    level : is_lowest (role_hierarchy from.role) ≡ false
    pair : role_can_delegate_to from.role to.role ≡ true
    list : off_allowlist from.can_delegate_to to.id ≡ false
    cost : exceeds max_cost_usd from.max_cost_per_task ≡ false
    long : ltb (len description) 1 ≡ false
    short : ltb 2000 (len description) ≡ false

  Passes-allowed :
      (max_cost_usd : Option ℤ)
      → Passes max_cost_usd
      → (validate_delegation from to description max_cost_usd).allowed ≡ true
  unfolding validate_delegation
  Passes-allowed max_cost_usd p = rw (p.ids, p.level, p.pair, p.list, p.cost, p.long, p.short)

  allowed-Passes :
      (max_cost_usd : Option ℤ)
      → (validate_delegation from to description max_cost_usd).allowed ≡ true
      → Passes max_cost_usd
  unfolding validate_delegation
  allowed-Passes none h = ground arith
  allowed-Passes (some c) h = ground arith

-- The two tests on the roles, as one statement about them.
abbrev Ranks : String → String → Type 0
Ranks from to =
    ((from ≡ "lead") × ((to ≡ "senior") ⊎ (to ≡ "junior"))) ⊎ ((from ≡ "senior") × (to ≡ "junior"))

tests-Ranks : (from to : String) → role_can_delegate_to from to ≡ true → Ranks from to
tests-Ranks from to h = elim (Bool-cases (str_eq from "lead")) [
  | inl l ↦ elim (Bool-cases (str_eq to "senior")) [
    | inl s ↦ inl (str_eq→eq _ _ l, inl (str_eq→eq _ _ s))
    | inr s ↦ inl (str_eq→eq _ _ l, inr (str_eq→eq _ _ (rw (l, s) at h)))
  ]
  | inr l ↦ elim (Bool-cases (str_eq from "senior")) [
    | inl s ↦ inr (str_eq→eq _ _ s, str_eq→eq _ _ (rw (l, s) at h))
    | inr s ↦ let h' : false ≡ true = rw (l, s) at h in absurd (cc)
  ]
]

Ranks-tests :
    (from to : String)
    → Ranks from to
    → (is_lowest (role_hierarchy from) ≡ false) × (role_can_delegate_to from to ≡ true)
Ranks-tests from to (inl (l, inl s)) = rw (l, s) (refl, refl)
Ranks-tests from to (inl (l, inr j)) = rw (l, j) (refl, refl)
Ranks-tests from to (inr (s, j)) = rw (s, j) (refl, refl)

listed_iff :
    (ids : List String) (to : String) → (off_allowlist ids to ≡ false) ↔ ((ids ≡ []) ⊎ In to ids)
listed_iff [] to = (λ _. inl refl, λ _. refl)
listed_iff (a ∷ rest) to = (
  λ h.
      let (x, m, e) = exists-witness (λ id. str_eq id to) (a ∷ rest) (ground arith) in
      inr (subst (λ z. In z (a ∷ rest)) (str_eq→eq x to e) m),
  λ h. elim h [
    | inl e ↦ absurd (cc)
    | inr m ↦ let found = exists-In (λ id. str_eq id to) (a ∷ rest) m (str_eq_refl to) in rw found
  ],
)

affordable_iff :
    (cost : Option ℤ) (limit : ℤ)
    → (exceeds cost limit ≡ false) ↔ ((c : ℤ) → cost ≡ some c → c ≤ℤ limit)
affordable_iff none limit = (λ h c e. absurd (cc), λ h. refl)
affordable_iff (some c) limit = (
  λ h d e. let same : c ≡ d = cc in subst (λ z. z ≤ℤ limit) same (ground arith),
  λ h. let le : c ≤ℤ limit = h c refl in ground arith,
)

-- ValidateDelegation allows a delegation exactly when the agents differ, the roles are lead to senior,
-- lead to junior or senior to junior, the allowlist is empty or names the target, a cost limit stays within the
-- agent's maximum, and the description has 1 to 2000 bytes.
pub validate_delegation_exact :
    (from to : AgentForValidation) (description : String) (max_cost_usd : Option ℤ)
    → ((validate_delegation from to description max_cost_usd).allowed ≡ true)
      ↔ MayDelegate from to description max_cost_usd
validate_delegation_exact from to description max_cost_usd = (
  λ h.
      let p = allowed-Passes from to description max_cost_usd h in
      record {
        apart = str_ne from.id to.id p.ids;
        ranks = tests-Ranks from.role to.role p.pair;
        listed = (listed_iff from.can_delegate_to to.id).0 p.list;
        affordable = (affordable_iff max_cost_usd from.max_cost_per_task).0 p.cost;
        described = ground (arith, p.long, p.short);
      },
  λ m. Passes-allowed from to description max_cost_usd (record {
    ids = str_eq_ne from.id to.id m.apart;
    level = (Ranks-tests from.role to.role m.ranks).0;
    pair = (Ranks-tests from.role to.role m.ranks).1;
    list = (listed_iff from.can_delegate_to to.id).1 m.listed;
    cost = (affordable_iff max_cost_usd from.max_cost_per_task).1 m.affordable;
    long = ground (arith, m.described);
    short = ground (arith, m.described);
  }),
)

-- ===== src/Engine/Blocks.antt =====
-- The delegations that an answer of a language model asks for (bot/orchestrator/engine/parser.go).
pub mod Bounds
use shipmates_oss.Prelude.{
  ℕ, zero, suc, ◌+◌, Bool, true, false, not, ◌&&◌, ◌||◌, Option, none, some, List, [], ◌∷◌, map,
  leb, ltb, ◌==◌, if◌then◌else◌, length, take,
}
use shipmates_oss.Prelude.Bytes.{Bytes, codes, bytes_eq, contains, trim_space}
use shipmates_oss.Engine.Json.{
  Numbers, Json, Items, Fields, null, boolean, number, text, array, object, nil, cons, end, field,
  get, text_of, number_of,
}
use shipmates_oss.Engine.Text.{
  strip_markdown_fences, extract_json_substring, strip_trailing_commas, tagged, untagged,
}
use shipmates_oss.Engine.Parser.{Parsed, ok, err, ParseError, SketchResult, parse_sketch_response}

abbrev pub then_some : {A B : Type 0} → Option A → (A → Option B) → Option B
then_some none k = none
then_some (some a) k = k a

abbrev pub only_if : {A : Type 0} → (A → Bool) → Option A → Option A
only_if p none = none
only_if p (some a) = if p a then some a else none

-- The text without its pairs of tags
unfoldable pub strip_delegation_tags : Bytes → Bytes
unfolding untagged
strip_delegation_tags raw = untagged 0 raw

module _ (n : Numbers) where
  pub record DelegationBlock : Type 0 where
    pub to_agent_id : Bytes
    pub description : Bytes
    pub priority : Option ℕ
    pub blocked_by : List Bytes
    pub max_cost_usd : Option n.Number
    -- empty where the answer names none that the code knows
    pub context_mode : Bytes

  -- int(priority)
  abbrev pub whole : Option n.Number → Option ℕ
  whole none = none
  whole (some x) = some (n.to_int x)

  abbrev pub count_items : Items n → ℕ
  count_items nil = 0
  count_items (cons v vs) = suc (count_items vs)

  abbrev pub items_of : Option (Json n) → Option (Items n)
  items_of (some (array vs)) = some vs
  items_of _ = none

  abbrev pub onto_ids : Option Bytes → Option (List Bytes) → Option (List Bytes)
  onto_ids (some id) (some ids) = some (id ∷ ids)
  onto_ids _ _ = none

  -- The loop over the ids; none once one is not valid.
  abbrev pub short_ids : Items n → Option (List Bytes)
  short_ids nil = some []
  short_ids (cons v vs) =
      onto_ids (only_if (λ s. ltb (length s) 100) (text_of n (some v))) (short_ids vs)

  abbrev pub or_no_ids : Option (List Bytes) → List Bytes
  or_no_ids none = []
  or_no_ids (some ids) = ids

  abbrev pub is_context_mode : Bytes → Bool
  is_context_mode s =
      bytes_eq s (codes "summary") || (bytes_eq s (codes "diff") || bytes_eq s (codes "full"))

  abbrev pub mode_or_empty : Option Bytes → Bytes
  mode_or_empty none = []
  mode_or_empty (some s) = if is_context_mode s then s else []

  abbrev pub optional_fields : Fields n → Bytes → Bytes → DelegationBlock
  optional_fields parsed id description = record {
    to_agent_id = id;
    description = description;
    priority = whole (
        only_if (λ x. n.at_least 0 x && n.at_most 100 x)
          (number_of n (get n (codes "priority") parsed)));
    blocked_by = or_no_ids (
        then_some
          (only_if (λ vs. leb (count_items vs) 50) (items_of (get n (codes "blockedBy") parsed)))
          short_ids);
    max_cost_usd = only_if n.is_positive (number_of n (get n (codes "maxCostUsd") parsed));
    context_mode = mode_or_empty (text_of n (get n (codes "contextMode") parsed));
  }

  unfoldable pub block_of : Fields n → Option DelegationBlock
  block_of parsed =
      then_some (only_if (λ s. ltb (length s) 100) (text_of n (get n (codes "toAgentId") parsed)))
        λ id.
          then_some
            (only_if (λ s. not (length s == 0) && ltb (length s) 10000)
              (text_of n (get n (codes "description") parsed)))
            λ description. some (optional_fields parsed id description)

  module _ (unmarshal : Bytes → Option (Fields n)) where
    -- One turn of the loop, for what stands between a pair of tags; none is `continue`.
    unfoldable pub read_block : Bytes → Option DelegationBlock
    unfolding strip_markdown_fences extract_json_substring strip_trailing_commas block_of
    read_block between =
        then_some
          (only_if (λ s. not ((length s == 0) || ltb 5000 (length s))) (some (trim_space between)))
          λ content.
            then_some (extract_json_substring (strip_markdown_fences content))
              λ json. then_some (unmarshal (strip_trailing_commas json)) block_of

    abbrev pub taken :
        Option DelegationBlock → List DelegationBlock → List DelegationBlock → List DelegationBlock
    taken none blocks rest = rest
    taken (some b) blocks rest = b ∷ blocks

    -- The loop: how many blocks may still be taken.
    abbrev pub read_blocks : ℕ → List Bytes → List DelegationBlock
    read_blocks zero matches = []
    read_blocks (suc left) [] = []
    read_blocks (suc left) (m ∷ matches) =
        taken (read_block m) (read_blocks left matches) (read_blocks (suc left) matches)

    unfoldable pub extract_delegation_blocks : Bytes → List DelegationBlock
    unfolding tagged read_block
    extract_delegation_blocks raw =
        if ltb 100000 (length raw) then [] else read_blocks 10 (tagged 0 raw)

    unfoldable pub parse_sketch_with_delegations :
        Bytes → Parsed SketchResult × List DelegationBlock
    unfolding strip_delegation_tags extract_delegation_blocks parse_sketch_response
    parse_sketch_with_delegations raw =
        let cleaned = strip_delegation_tags raw in
        let empty : SketchResult = record { explanation = []; edits = []; new_files = [] } in
        (
          (if ltb 0 (length cleaned) && contains cleaned (b'{' ∷ [])
              then parse_sketch_response n unmarshal cleaned
              else ok empty),
          extract_delegation_blocks raw,
        )

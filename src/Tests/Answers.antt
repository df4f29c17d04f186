-- ===== src/Tests/Answers.antt =====
-- Answers of a language model. A number is a natural number here, and json.Unmarshal one text's result.
use shipmates_oss.Prelude.{
  ℕ, ◌≤◌, ◌≡◌, refl, Option, none, some, [], ◌∷◌, length, All, leb, ltb, leb→le,
}
use shipmates_oss.Prelude.Bytes.{Bytes, codes}
use shipmates_oss.Delegation.Locks.Paths.{traverses}
use shipmates_oss.Engine.Apply.{FileEdit, NewFile}
use shipmates_oss.Engine.Json.{Numbers, Fields, number, text, array, object, nil, cons, end, field}
use shipmates_oss.Engine.Text.{
  extract_json_substring, strip_markdown_fences, strip_trailing_commas, query_unescape,
}
use shipmates_oss.Engine.Parser.{ok, SketchResult, has_path_traversal, parse_sketch_response}
use shipmates_oss.Engine.Parser.Clean.{IsContained, parse_sketch_response-IsContained}
use shipmates_oss.Engine.Scope.{AgentScope, validate_agent_scope}
use shipmates_oss.Engine.Scope.Kept.{Keeps, InScope, validate_agent_scope_exact}
use shipmates_oss.Engine.Blocks.{DelegationBlock, extract_delegation_blocks, strip_delegation_tags}
use shipmates_oss.Engine.Blocks.Bounds.{IsBounded, extract_delegation_blocks-IsBounded}

abbrev pub naturals : Numbers
naturals = record {
  Number = ℕ;
  at_least = λ k x. leb k x;
  at_most = λ k x. leb x k;
  is_positive = λ x. ltb 0 x;
  to_int = λ x. x;
}

abbrev edit_fields : Bytes → Fields naturals
edit_fields path = field (codes "filePath") (text path) (
    field (codes "searchText") (text (codes "a"))
      (field (codes "replaceText") (text (codes "b")) end))

abbrev two_edits : Fields naturals
two_edits =
    field (codes "edits")
      (array (
        cons (object (edit_fields (codes "src/a.go")))
          (cons (object (edit_fields (codes "%2e%2e/b.go"))) nil)))
      end

abbrev unmarshal_edits : Bytes → Option (Fields naturals)
unmarshal_edits s = some two_edits

abbrev answer : Bytes
answer = codes "Here: {\"edits\": [..],} done"

abbrev one_edit : SketchResult
one_edit = record {
  explanation = [];
  edits =
      record { file_path = codes "src/a.go"; search_text = codes "a"; replace_text = codes "b" }
      ∷ [];
  new_files = [];
}

takes_one : parse_sketch_response naturals unmarshal_edits answer ≡ ok one_edit
unfolding parse_sketch_response has_path_traversal strip_markdown_fences extract_json_substring
    query_unescape traverses
takes_one = refl

parse_sketch_response-IsContained_example : IsContained one_edit
parse_sketch_response-IsContained_example =
    parse_sketch_response-IsContained naturals unmarshal_edits answer one_edit takes_one

cut_answer : extract_json_substring answer ≡ some (codes "{\"edits\": [..],}")
unfolding extract_json_substring
cut_answer = refl

commas_gone : strip_trailing_commas (codes "{\"a\": [1, 2, ] , }") ≡ codes "{\"a\": [1, 2] }"
unfolding strip_trailing_commas
commas_gone = refl

comma_in_a_string : strip_trailing_commas (codes "{\"a\": \"x,]\"}") ≡ codes "{\"a\": \"x]\"}"
unfolding strip_trailing_commas
comma_in_a_string = refl

fences_gone : strip_markdown_fences (codes "```json\n{}\n```") ≡ codes "{}"
unfolding strip_markdown_fences
fences_gone = refl

-- What is left of tags in tags is a pair of tags.
tags_remain :
    strip_delegation_tags (codes "<dele<delegate></delegate>gate>x</delegate>")
    ≡ codes "<delegate>x</delegate>"
unfolding strip_delegation_tags
tags_remain = refl

abbrev lower : Bytes → Bytes
lower s = s

abbrev go_in_src : Option AgentScope
go_in_src = some (record { directories = codes "src" ∷ []; languages = codes "go" ∷ [] })

abbrev three_edits : SketchResult
three_edits = record {
  explanation = [];
  edits =
      record { file_path = codes "src/a.go"; search_text = codes "a"; replace_text = codes "b" }
      ∷ record { file_path = codes "srcs/a.go"; search_text = codes "a"; replace_text = codes "b" }
      ∷ record { file_path = codes "src/a.rs"; search_text = codes "a"; replace_text = codes "b" }
      ∷ [];
  new_files = [];
}

one_in_scope : validate_agent_scope lower three_edits go_in_src ≡ one_edit
unfolding validate_agent_scope
one_in_scope = refl

validate_agent_scope_exact_example :
    ((validate_agent_scope lower three_edits go_in_src).explanation ≡ [])
    × Keeps
        (λ (e : FileEdit). InScope lower e.file_path go_in_src)
        three_edits.edits
        (validate_agent_scope lower three_edits go_in_src).edits
    × Keeps
        (λ (f : NewFile). InScope lower f.file_path go_in_src)
        []
        (validate_agent_scope lower three_edits go_in_src).new_files
validate_agent_scope_exact_example = validate_agent_scope_exact lower three_edits go_in_src

abbrev delegation_fields : Fields naturals
delegation_fields = field (codes "toAgentId") (text (codes "tester")) (
    field (codes "description") (text (codes "test it")) (
      field (codes "priority") (number 101) (
        field (codes "blockedBy") (array (cons (text (codes "t1")) nil))
          (field (codes "contextMode") (text (codes "diff")) end))))

abbrev unmarshal_delegation : Bytes → Option (Fields naturals)
unmarshal_delegation s = some delegation_fields

abbrev asks : Bytes
asks = codes "Go <delegate>{..}</delegate> on <delegate>none</delegate>"

abbrev the_block : DelegationBlock naturals
the_block = record {
  to_agent_id = codes "tester";
  description = codes "test it";
  priority = none;
  blocked_by = codes "t1" ∷ [];
  max_cost_usd = none;
  context_mode = codes "diff";
}

one_block : extract_delegation_blocks naturals unmarshal_delegation asks ≡ the_block ∷ []
unfolding extract_delegation_blocks
one_block = refl

extract_delegation_blocks-IsBounded_example :
    (length (extract_delegation_blocks naturals unmarshal_delegation asks) ≤ 10)
    × All (IsBounded naturals) (extract_delegation_blocks naturals unmarshal_delegation asks)
extract_delegation_blocks-IsBounded_example =
    extract_delegation_blocks-IsBounded naturals (λ x low high. leb→le x 100 high)
      unmarshal_delegation asks

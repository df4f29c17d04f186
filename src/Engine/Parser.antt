-- ===== src/Engine/Parser.antt =====
-- bot/orchestrator/engine/parser.go: an answer of a language model becomes edits and new files. The text of
-- an error is not modelled, its kind is.
pub mod Clean
use shipmates_oss.Prelude.{
  ℕ, zero, suc, ◌+◌, Bool, true, false, not, ◌&&◌, ◌||◌, Option, none, some, List, [], ◌∷◌, map,
  ltb, ◌==◌, if◌then◌else◌, length, take, exists, select,
}
use shipmates_oss.Prelude.Bytes.{Bytes, codes, contains, trim_space}
use shipmates_oss.Delegation.Locks.Paths.{traverses, normalize}
use shipmates_oss.Engine.Apply.{FileEdit, NewFile}
use shipmates_oss.Engine.Json.{
  Numbers, Json, Items, Fields, null, boolean, number, text, array, object, nil, cons, end, field,
  get, text_of,
}
use shipmates_oss.Engine.Text.{
  strip_markdown_fences, extract_json_substring, strip_trailing_commas, query_unescape, or_itself,
  untagged,
}

pub data ParseError : Type 0 where
  empty_response : ParseError
  no_json_object : ParseError
  invalid_json : ParseError
  -- edits[i] or newFiles[i] is not an object
  not_an_object : ℕ → ParseError
  -- a field of edits[i] or newFiles[i] must be a string
  not_a_string : ℕ → Bytes → ParseError
  not_a_list : ParseError

pub data Parsed {ℓ} (A : Type ℓ) : Type ℓ where
  ok : A → Parsed A
  err : ParseError → Parsed A

infixl 5 ◌>>=◌
abbrev pub ◌>>=◌ {ℓ κ} : {A : Type ℓ} {B : Type κ} → Parsed A → (A → Parsed B) → Parsed B
ok a >>= k = k a
err e >>= k = err e

pub record SketchResult : Type 0 where
  pub explanation : Bytes
  pub edits : List FileEdit
  pub new_files : List NewFile

unfoldable pub has_path_traversal : Bytes → Bool
has_path_traversal path = traverses (normalize (or_itself (query_unescape path) path))

abbrev pub or_error : {A : Type 0} → Option A → ParseError → Parsed A
or_error none e = err e
or_error (some a) e = ok a

abbrev pub text_or_empty : Option Bytes → Bytes
text_or_empty none = []
text_or_empty (some s) = s

module _ (n : Numbers) where
  abbrev pub text_at : ℕ → Bytes → Fields n → Parsed Bytes
  text_at i key m = or_error (text_of n (get n key m)) (not_a_string i key)

  abbrev pub edit_of : ℕ → Fields n → Parsed FileEdit
  edit_of i m = do
    path ← text_at i (codes "filePath") m
    search ← text_at i (codes "searchText") m
    replace ← text_at i (codes "replaceText") m
    ok (record { file_path = path; search_text = search; replace_text = replace })

  unfoldable pub validate_file_edit : Json n → ℕ → Parsed FileEdit
  validate_file_edit (object m) i = edit_of i m
  validate_file_edit _ i = err (not_an_object i)

  abbrev pub file_of : ℕ → Fields n → Parsed NewFile
  file_of i m = do
    path ← text_at i (codes "filePath") m
    content ← text_at i (codes "content") m
    ok (record { file_path = path; content = content })

  unfoldable pub validate_new_file : Json n → ℕ → Parsed NewFile
  validate_new_file (object m) i = file_of i m
  validate_new_file _ i = err (not_an_object i)

  -- The loop over a list, from an index.
  abbrev pub validate_each : {A : Type 0} → (Json n → ℕ → Parsed A) → ℕ → Items n → Parsed (List A)
  validate_each check i nil = ok []
  validate_each check i (cons v vs) =
      check v i >>= λ a. validate_each check (i + 1) vs >>= λ rest. ok (a ∷ rest)

  unfoldable pub normalize_edits : Option (Json n) → Parsed (List FileEdit)
  unfolding validate_file_edit
  normalize_edits none = ok []
  normalize_edits (some null) = ok []
  normalize_edits (some (object m)) = validate_file_edit (object m) 0 >>= λ e. ok (e ∷ [])
  normalize_edits (some (array items)) = validate_each validate_file_edit 0 items
  normalize_edits (some _) = err not_a_list

  unfoldable pub normalize_new_files : Option (Json n) → Parsed (List NewFile)
  unfolding validate_new_file
  normalize_new_files none = ok []
  normalize_new_files (some null) = ok []
  normalize_new_files (some (array items)) = validate_each validate_new_file 0 items
  normalize_new_files (some _) = err not_a_list

  unfoldable pub build_sketch_result : Fields n → Parsed SketchResult
  unfolding normalize_edits normalize_new_files has_path_traversal
  build_sketch_result parsed = do
    edits ← normalize_edits (get n (codes "edits") parsed)
    files ← normalize_new_files (get n (codes "newFiles") parsed)
    ok (record {
      explanation = text_or_empty (text_of n (get n (codes "explanation") parsed));
      edits = select (λ (e : FileEdit). not (has_path_traversal e.file_path)) edits;
      new_files = select (λ (f : NewFile). not (has_path_traversal f.file_path)) files;
    })

  -- json.Unmarshal is a parameter.
  module _ (unmarshal : Bytes → Option (Fields n)) where
    abbrev pub max_response_size : ℕ
    max_response_size = 1048576

    unfoldable pub parse_sketch_response : Bytes → Parsed SketchResult
    unfolding strip_markdown_fences extract_json_substring strip_trailing_commas build_sketch_result
    parse_sketch_response raw = do
      let cut = if ltb max_response_size (length raw) then take max_response_size raw else raw
      let trimmed = trim_space cut
      some_text ← or_error (if length trimmed == 0 then none else some trimmed) empty_response
      extracted ← or_error (extract_json_substring (strip_markdown_fences some_text)) no_json_object
      parsed ← or_error (unmarshal (strip_trailing_commas extracted)) invalid_json
      build_sketch_result parsed

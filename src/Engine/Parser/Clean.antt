-- ===== src/Engine/Parser/Clean.antt =====
-- What an answer's edits may touch (bot/orchestrator/engine/parser.go).
use shipmates_oss.Prelude.{
  ◌≡◌, refl, sym, ◌∙◌, inl, inr, Bool, true, false, not, ◌||◌, Option, none, some, List, [], ◌∷◌,
  select, subst, All, In-All, select-In, exists, Bool-cases, length, ltb, take, ◌==◌, if◌then◌else◌,
}
use shipmates_oss.Prelude.Bytes.{Bytes, codes, contains, has_prefix, trim_space}
use shipmates_oss.Delegation.Locks.Paths.{traverses, normalize, split_slash, is_dot_dot}
use shipmates_oss.Delegation.Locks.Traversal.{traverses_exact}
use shipmates_oss.Engine.Apply.{FileEdit, NewFile}
use shipmates_oss.Engine.Json.{Numbers, Fields, get}
use shipmates_oss.Engine.Text.{
  extract_json_substring, query_unescape, or_itself, strip_markdown_fences, strip_trailing_commas,
}
use shipmates_oss.Engine.Parser.{
  Parsed, ok, err, ParseError, SketchResult, ◌>>=◌, or_error, has_path_traversal, max_response_size,
  normalize_edits, normalize_new_files, build_sketch_result, parse_sketch_response,
}

-- A path, decoded as a query where it is one, with `\` read as `/`.
abbrev pub plain : Bytes → Bytes
plain path = normalize (or_itself (query_unescape path) path)

-- Relative, without a NUL and without a segment `..`.
pub record StaysBelow (path : Bytes) : Type 0 where
  pub no_nul : contains (plain path) (0 ∷ []) ≡ false
  pub relative : has_prefix (plain path) (b'/' ∷ []) ≡ false
  pub no_step_up : exists is_dot_dot (split_slash (plain path)) ≡ false

none_of : (a b c : Bool) → (a || (b || c)) ≡ false → (a ≡ false) × (b ≡ false) × (c ≡ false)
none_of false false false h = (refl, refl, refl)
none_of true b c h = cc
none_of false true c h = cc
none_of false false true h = cc

no_traversal-StaysBelow : (path : Bytes) → not (has_path_traversal path) ≡ true → StaysBelow path
unfolding has_path_traversal
no_traversal-StaysBelow path h = elim (Bool-cases (traverses (plain path))) [
  | inl e ↦ let h' : false ≡ true = rw e at h in cc
  | inr e ↦
      let (a, b, c) = none_of _ _ _ (sym (traverses_exact (plain path)) ∙ e) in
      record { no_nul = a; relative = b; no_step_up = c }
]

abbrev pub IsContained : SketchResult → Type 0
IsContained r =
    All (λ (e : FileEdit). StaysBelow e.file_path) r.edits
    × All (λ (f : NewFile). StaysBelow f.file_path) r.new_files

-- What holds of the value of a result, where it has one.
abbrev Sure : {A : Type 0} → (A → Type 0) → Parsed A → Type 0
Sure P (ok a) = P a
Sure P (err e) = Unit

bind-Sure :
    {A B : Type 0} (P : B → Type 0) (m : Parsed A) (k : A → Parsed B)
    → ((a : A) → Sure P (k a))
    → Sure P (m >>= k)
bind-Sure P (ok a) k h = h a
bind-Sure P (err e) k h = tt

module _ {A : Type 0} where
  kept :
      (path : A → Bytes) (xs : List A)
      → All (λ x. StaysBelow (path x)) (select (λ x. not (has_path_traversal (path x))) xs)
  kept path xs =
      In-All (λ x. StaysBelow (path x)) _
        λ x m. no_traversal-StaysBelow (path x) (select-In _ xs m).1

build-IsContained :
    (n : Numbers) (parsed : Fields n) → Sure IsContained (build_sketch_result n parsed)
unfolding build_sketch_result
build-IsContained n parsed =
    bind-Sure IsContained (normalize_edits n (get n (codes "edits") parsed)) _ λ edits.
      bind-Sure IsContained (normalize_new_files n (get n (codes "newFiles") parsed)) _ λ files.
        (kept (λ (x : FileEdit). x.file_path) edits, kept (λ (x : NewFile). x.file_path) files)

parsed-IsContained :
    (n : Numbers) (unmarshal : Bytes → Option (Fields n)) (raw : Bytes)
    → Sure IsContained (parse_sketch_response n unmarshal raw)
unfolding parse_sketch_response
parsed-IsContained n unmarshal raw =
    let trimmed = trim_space (
      if ltb (max_response_size n unmarshal) (length raw)
      then take (max_response_size n unmarshal) raw
      else raw) in
    bind-Sure IsContained
      (or_error (if length trimmed == 0 then none else some trimmed) ParseError.empty_response) _
      λ t.
        bind-Sure IsContained
          (or_error (extract_json_substring (strip_markdown_fences t)) ParseError.no_json_object) _
          λ x.
            bind-Sure IsContained
              (or_error (unmarshal (strip_trailing_commas x)) ParseError.invalid_json) _
              λ m. build-IsContained n m

-- Of an answer that ParseSketchResponse takes, whatever json.Unmarshal makes of the text, no edit and no new file
-- has a path that, decoded as a query and with its backslashes as slashes, holds a NUL, starts with a slash or has
-- a segment `..`.
pub parse_sketch_response-IsContained :
    (n : Numbers) (unmarshal : Bytes → Option (Fields n)) (raw : Bytes) (r : SketchResult)
    → parse_sketch_response n unmarshal raw ≡ ok r
    → IsContained r
parse_sketch_response-IsContained n unmarshal raw r h =
    subst (Sure IsContained) h (parsed-IsContained n unmarshal raw)

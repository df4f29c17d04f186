-- ===== src/Engine/Scope.antt =====
-- Which files an agent may touch (bot/orchestrator/engine/parser.go). strings.ToLower is a parameter.
pub mod Extension
pub mod Kept
use shipmates_oss.Prelude.{
  ℕ, ◌-◌, Bool, true, false, ◌&&◌, ◌||◌, Option, none, some, List, [], ◌∷◌, ◌++◌, map, select,
  exists, length, leb, ltb, ◌==◌, if◌then◌else◌,
}
use shipmates_oss.Prelude.Bytes.{Bytes, codes, bytes_eq, has_prefix, split_on}
use shipmates_oss.Engine.Text.{has_suffix}
use shipmates_oss.Engine.Apply.{FileEdit, NewFile}
use shipmates_oss.Engine.Parser.{SketchResult}

pub record AgentScope : Type 0 where
  pub directories : List Bytes
  pub languages : List Bytes

abbrev pub language_extensions : List (Bytes × List Bytes)
language_extensions =
    (codes "typescript", codes "ts" ∷ codes "tsx" ∷ [])
    ∷ (codes "javascript", codes "js" ∷ codes "jsx" ∷ codes "mjs" ∷ codes "cjs" ∷ [])
    ∷ (codes "python", codes "py" ∷ codes "pyw" ∷ [])
    ∷ (codes "go", codes "go" ∷ [])
    ∷ (codes "rust", codes "rs" ∷ [])
    ∷ (codes "java", codes "java" ∷ [])
    ∷ (codes "kotlin", codes "kt" ∷ codes "kts" ∷ [])
    ∷ (codes "swift", codes "swift" ∷ [])
    ∷ (codes "ruby", codes "rb" ∷ [])
    ∷ (codes "php", codes "php" ∷ [])
    ∷ (codes "csharp", codes "cs" ∷ [])
    ∷ (codes "cpp", codes "cpp" ∷ codes "cc" ∷ codes "cxx" ∷ codes "h" ∷ codes "hpp" ∷ [])
    ∷ (codes "c", codes "c" ∷ codes "h" ∷ [])
    ∷ (codes "html", codes "html" ∷ codes "htm" ∷ [])
    ∷ (codes "css", codes "css" ∷ codes "scss" ∷ codes "sass" ∷ codes "less" ∷ [])
    ∷ (codes "json", codes "json" ∷ [])
    ∷ (codes "yaml", codes "yaml" ∷ codes "yml" ∷ [])
    ∷ (codes "markdown", codes "md" ∷ codes "mdx" ∷ [])
    ∷ (codes "shell", codes "sh" ∷ codes "bash" ∷ codes "zsh" ∷ [])
    ∷ (codes "sql", codes "sql" ∷ [])
    ∷ []

-- A read of the map: no extension of a language that it does not have.
abbrev pub extensions_of : Bytes → List (Bytes × List Bytes) → List Bytes
extensions_of language [] = []
extensions_of language ((l, es) ∷ table) =
    let rest = extensions_of language table in if bytes_eq language l then es else rest

abbrev pub last_part : List Bytes → Bytes
last_part [] = []
last_part (s ∷ []) = s
last_part (s ∷ t ∷ ts) = last_part (t ∷ ts)

module _ (to_lower : Bytes → Bytes) where
  unfoldable pub file_matches_languages : Bytes → List Bytes → Bool
  file_matches_languages path languages =
      let parts = split_on b'.' path in
      let extension = to_lower (last_part parts) in
      if length languages == 0
      then true
      else if ltb (length parts) 2
      then false
      else exists
          (λ l. exists (bytes_eq extension) (extensions_of (to_lower l) language_extensions))
          languages

abbrev pub with_slash : Bytes → Bytes
with_slash directory =
    if has_suffix directory (b'/' ∷ []) then directory else directory ++ (b'/' ∷ [])

unfoldable pub file_matches_directories : Bytes → List Bytes → Bool
file_matches_directories path directories =
    if length directories == 0
    then true
    else exists (λ d. has_prefix path (with_slash d) || bytes_eq path d) directories

module _ (to_lower : Bytes → Bytes) where
  unfoldable pub file_matches_scope : Bytes → List Bytes → List Bytes → Bool
  unfolding file_matches_directories file_matches_languages
  file_matches_scope path directories languages =
      file_matches_directories path directories && file_matches_languages to_lower path languages

  unfoldable pub validate_agent_scope : SketchResult → Option AgentScope → SketchResult
  unfolding file_matches_scope
  validate_agent_scope result none = result
  validate_agent_scope result (some s) =
      if (length s.directories == 0) && (length s.languages == 0) then result else record {
        explanation = result.explanation;
        edits =
            select (λ (e : FileEdit). file_matches_scope e.file_path s.directories s.languages)
              result.edits;
        new_files =
            select (λ (f : NewFile). file_matches_scope f.file_path s.directories s.languages)
              result.new_files;
      }

-- ===== src/Engine/Scope/Kept.antt =====
-- What ValidateAgentScope (bot/orchestrator/engine/parser.go) keeps.
use shipmates_oss.Prelude.{
  ◌≡◌, refl, sym, ap, ◌∙◌, subst, ◌⊎◌, inl, inr, ◌↔◌, Bool, true, false, ◌&&◌, ◌||◌, Option, none,
  some, List, [], ◌∷◌, ◌++◌, exists, length, select, ltb, ◌==◌, Bool-cases, &&→both, In, exists-In,
  exists-witness, arith,
}
use shipmates_oss.Prelude.Bytes.{Bytes, bytes_eq, has_prefix, split_on}
use shipmates_oss.Prelude.Prefixes.{
  has_prefix-append, append-has_prefix, bytes_eq→eq, bytes_eq_refl,
}
use shipmates_oss.Engine.Apply.{FileEdit, NewFile}
use shipmates_oss.Engine.Parser.{SketchResult}
use shipmates_oss.Engine.Scope.{
  AgentScope, language_extensions, extensions_of, last_part, file_matches_languages, with_slash,
  file_matches_directories, file_matches_scope, validate_agent_scope,
}
use shipmates_oss.Engine.Scope.Extension.{NoByte, cut_of_parts, parts_of_cut}

-- A list without the elements that have not the property, in the same order.
pub data Keeps {A : Type 0} (P : A → Type 0) : List A → List A → Type 0 where
  nothing : Keeps P [] []
  keep : {x : A} {xs ys : List A} → P x → Keeps P xs ys → Keeps P (x ∷ xs) (x ∷ ys)
  leave : {x : A} {xs ys : List A} → ¬ P x → Keeps P xs ys → Keeps P (x ∷ xs) ys

-- A directory itself, or a path below it.
abbrev pub Below : Bytes → Bytes → Type 0
Below path directory = (path ≡ directory) ⊎ ((rest : Bytes) × (path ≡ with_slash directory ++ rest))

abbrev pub InDirectories : Bytes → List Bytes → Type 0
InDirectories path directories =
    (directories ≡ []) ⊎ ((directory : Bytes) × In directory directories × Below path directory)

-- The lower case of what stands after the last dot is an extension of a language of the list.
abbrev pub WrittenIn : (Bytes → Bytes) → Bytes → List Bytes → Type 0
WrittenIn to_lower path languages =
    (stem : Bytes) × (extension : Bytes) × (path ≡ stem ++ (b'.' ∷ extension))
    × NoByte b'.' extension
    × ((language : Bytes) × In language languages
        × In (to_lower extension) (extensions_of (to_lower language) language_extensions))

abbrev pub InLanguages : (Bytes → Bytes) → Bytes → List Bytes → Type 0
InLanguages to_lower path languages = (languages ≡ []) ⊎ WrittenIn to_lower path languages

abbrev pub InScope : (Bytes → Bytes) → Bytes → Option AgentScope → Type 0
InScope to_lower path none = Unit
InScope to_lower path (some s) =
    InDirectories path s.directories × InLanguages to_lower path s.languages

no_list : {A : Type 0} (xs : List A) → (length xs == 0) ≡ true → xs ≡ []
no_list [] h = refl
no_list (x ∷ xs) h = absurd (ground arith)

below_directories :
    (path : Bytes) (ds : List Bytes)
    → file_matches_directories path ds ≡ true
    → InDirectories path ds
unfolding file_matches_directories
below_directories path ds h = elim (Bool-cases (length ds == 0)) [
  | inl e ↦ inl (no_list ds e)
  | inr e ↦
      let (d, m, hit) =
        exists-witness (λ d. has_prefix path (with_slash d) || bytes_eq path d) ds (rw e at h) in
      inr (
        d,
        m,
        elim (Bool-cases (has_prefix path (with_slash d))) [
          | inl p ↦ inr (_, has_prefix-append (with_slash d) path p)
          | inr p ↦ inl (bytes_eq→eq path d (rw p at hit))
        ],
      )
]

directories_match :
    (path : Bytes) (ds : List Bytes)
    → InDirectories path ds
    → file_matches_directories path ds ≡ true
unfolding file_matches_directories
directories_match path ds (inl e) = rw e refl
directories_match path ds (inr (d, m, below)) = elim (Bool-cases (length ds == 0)) [
  | inl e ↦ rw e refl
  | inr e ↦
      let hit : (has_prefix path (with_slash d) || bytes_eq path d) ≡ true = elim below [
        | inl q ↦ let same = ap (bytes_eq path) (sym q) ∙ bytes_eq_refl path in ground arith
        | inr (rest, q) ↦
            let pre =
              ap (λ p. has_prefix p (with_slash d)) q ∙ append-has_prefix (with_slash d) rest in
            ground arith
      ] in
      rw (e, exists-In (λ d. has_prefix path (with_slash d) || bytes_eq path d) ds m hit) refl
]

module _ (to_lower : Bytes → Bytes) where
  abbrev hits : Bytes → Bytes → Bool
  hits extension l =
      exists (bytes_eq (to_lower extension)) (extensions_of (to_lower l) language_extensions)

  languages_written :
      (path : Bytes) (ls : List Bytes)
      → file_matches_languages to_lower path ls ≡ true
      → InLanguages to_lower path ls
  unfolding file_matches_languages
  languages_written path ls h = elim (Bool-cases (length ls == 0)) [
    | inl e ↦ inl (no_list ls e)
    | inr e ↦ elim (Bool-cases (ltb (length (split_on b'.' path)) 2)) [
      | inl k ↦ absurd (let h' : false ≡ true = rw (e, k) at h in cc)
      | inr k ↦
          let (stem, cut, free) = cut_of_parts b'.' path k in
          let (l, m, hit) =
            exists-witness (hits (last_part (split_on b'.' path))) ls (rw (e, k) at h) in
          let (x, at_x, same) =
            exists-witness (bytes_eq (to_lower (last_part (split_on b'.' path)))) _ hit in
          let eq = bytes_eq→eq _ x same in
          inr (
            stem,
            last_part (split_on b'.' path),
            cut,
            free,
            (
              l,
              m,
              subst (λ y. In y (extensions_of (to_lower l) language_extensions)) (sym eq) at_x,
            ),
          )
    ]
  ]

  written_matches :
      (path : Bytes) (ls : List Bytes)
      → InLanguages to_lower path ls
      → file_matches_languages to_lower path ls ≡ true
  unfolding file_matches_languages
  written_matches path ls (inl e) = rw e refl
  written_matches path ls (inr (stem, x, cut, free, (l, m, at_x))) =
      elim (Bool-cases (length ls == 0)) [
        | inl e ↦ rw e refl
        | inr e ↦
            let (several, last) = parts_of_cut b'.' stem x free in
            let hit = exists-In (bytes_eq (to_lower x)) _ at_x (bytes_eq_refl (to_lower x)) in
            rw (cut, e, several, last, exists-In (hits x) ls m hit) refl
      ]

  scope_iff :
      (path : Bytes) (s : AgentScope)
      → (file_matches_scope to_lower path s.directories s.languages ≡ true)
        ↔ InScope to_lower path (some s)
  unfolding file_matches_scope
  scope_iff path s = (
    λ h.
        let b = &&→both _ _ h in
        (below_directories path s.directories b.0, languages_written path s.languages b.1),
    λ k.
        let one = directories_match path s.directories k.0 in
        let two = written_matches path s.languages k.1 in ground arith,
  )

select-Keeps :
    {A : Type 0} (P : A → Type 0) (p : A → Bool)
    → ((x : A) → (p x ≡ true) ↔ P x)
    → (xs : List A) → Keeps P xs (select p xs)
select-Keeps P p h [] = nothing
select-Keeps P p h (x ∷ xs) = elim (Bool-cases (p x)) [
  | inl e ↦ rw e (keep ((h x).0 e) (select-Keeps P p h xs))
  | inr e ↦
      let not_it : ¬ P x = λ q. let e' = (h x).1 q in ground arith in
      rw e (leave not_it (select-Keeps P p h xs))
]

all-Keeps : {A : Type 0} (P : A → Type 0) → ((x : A) → P x) → (xs : List A) → Keeps P xs xs
all-Keeps P h [] = nothing
all-Keeps P h (x ∷ xs) = keep (h x) (all-Keeps P h xs)

-- ValidateAgentScope leaves the explanation, and of the edits and the new files exactly those whose paths are
-- in the scope, in their order: below one of its directories, if it names any, and written in one of its
-- languages by their extension, if it names any. Without a scope every path is in it.
pub validate_agent_scope_exact :
    (to_lower : Bytes → Bytes) (result : SketchResult) (scope : Option AgentScope)
    → ((validate_agent_scope to_lower result scope).explanation ≡ result.explanation)
      × Keeps
          (λ (e : FileEdit). InScope to_lower e.file_path scope)
          result.edits
          (validate_agent_scope to_lower result scope).edits
      × Keeps
          (λ (f : NewFile). InScope to_lower f.file_path scope)
          result.new_files
          (validate_agent_scope to_lower result scope).new_files
unfolding validate_agent_scope
validate_agent_scope_exact to_lower result none =
    (refl, all-Keeps _ (λ x. tt) result.edits, all-Keeps _ (λ x. tt) result.new_files)
validate_agent_scope_exact to_lower result (some s) =
    elim (Bool-cases ((length s.directories == 0) && (length s.languages == 0))) [
      | inl e ↦
          let b = &&→both _ _ e in
          let open_to_all : (p : Bytes) → InScope to_lower p (some s) =
            λ p. (inl (no_list s.directories b.0), inl (no_list s.languages b.1)) in
          rw e (
            refl,
            all-Keeps _ (λ (x : FileEdit). open_to_all x.file_path) result.edits,
            all-Keeps _ (λ (x : NewFile). open_to_all x.file_path) result.new_files,
          )
      | inr e ↦ rw e (
        refl,
        select-Keeps _ _ (λ (x : FileEdit). scope_iff to_lower x.file_path s) result.edits,
        select-Keeps _ _ (λ (x : NewFile). scope_iff to_lower x.file_path s) result.new_files,
      )
    ]

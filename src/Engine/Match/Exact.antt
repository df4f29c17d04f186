-- ===== src/Engine/Match/Exact.antt =====
-- An exact match of FindMatch (bot/orchestrator/engine/apply.go) is the one place of the text.
use native.Mathlib.Nat.{zero-add}
use native.Mathlib.Decide.{dec_lt}
use shipmates_oss.Prelude.{
  ℕ, zero, suc, ◌+◌, ◌-◌, ◌≤◌, ◌<◌, ◌≡◌, ◌≢◌, refl, sym, ◌∙◌, ap, ◌⊎◌, inl, inr, true, false, ◌||◌,
  Option, none, some, List, [], ◌∷◌, ◌++◌, ltb, ◌==◌, length, length-drop, take, drop, subst,
  if_cases, Bool-cases, Option-cases, arith,
}
use shipmates_oss.Prelude.Bytes.{Bytes, bytes_eq, split_on, has_prefix, index, shift}
use shipmates_oss.Prelude.Prefixes.{has_prefix-append, append-has_prefix}
use shipmates_oss.Engine.Similarity.{Floats}
use shipmates_oss.Engine.Match.{
  Match, Method, Candidate, slice_from, alone, unique_index, or_else, find_match, fuzzy_match,
  fuzzy_of, settle, candidates_of, normalize_lines, strip_blank_edges,
}

-- Where a text stands in a file.
abbrev pub StandsAt : ℕ → Bytes → Bytes → Type 0
StandsAt i text file = has_prefix (drop i file) text ≡ true

shift-some : (o : Option ℕ) {i : ℕ} → shift o ≡ some i → (k : ℕ) × (o ≡ some k) × (i ≡ suc k)
shift-some none {i} h = let h' : ◌≡◌ {A = Option ℕ} none (some i) = h in cc
shift-some (some k) {i} h = let h' : some (suc k) ≡ some i = h in (k, refl, cc)

shift-none : (o : Option ℕ) → shift o ≡ none → o ≡ none
shift-none none h = refl
shift-none (some k) h = let h' : ◌≡◌ {A = Option ℕ} (some (suc k)) none = h in cc

index_found : (text s : Bytes) (i : ℕ) → index s text ≡ some i → StandsAt i text s × (i ≤ length s)
index_found text [] i h = elim (Bool-cases (has_prefix [] text)) [
  | inl e ↦
      let h' : some 0 ≡ some i = rw e at h in let z : 0 ≡ i = cc in (rw (sym z) e, omega (arith, z))
  | inr e ↦ let h' : ◌≡◌ {A = Option ℕ} none (some i) = rw e at h in cc
]
index_found text (c ∷ s) i h = elim (Bool-cases (has_prefix (c ∷ s) text)) [
  | inl e ↦
      let h' : some 0 ≡ some i = rw e at h in let z : 0 ≡ i = cc in (rw (sym z) e, omega (arith, z))
  | inr e ↦
      let h' : shift (index s text) ≡ some i = rw e at h in
      let (k, hk, ek) = shift-some (index s text) h' in
      let (stands, le) = index_found text s k hk in (rw ek stands, omega (arith, ek, le))
]

index_first :
    (text s : Bytes) (i : ℕ)
    → index s text ≡ some i
    → (j : ℕ) → j < i
    → has_prefix (drop j s) text ≡ false
index_first text [] i h j lt = let (stands, le) = index_found text [] i h in absurd (omega arith)
index_first text (c ∷ s) i h zero lt = elim (Bool-cases (has_prefix (c ∷ s) text)) [
  | inl e ↦ let h' : some 0 ≡ some i = rw e at h in let z : 0 ≡ i = cc in absurd (omega arith)
  | inr e ↦ e
]
index_first text (c ∷ s) i h (suc j) lt = elim (Bool-cases (has_prefix (c ∷ s) text)) [
  | inl e ↦ let h' : some 0 ≡ some i = rw e at h in let z : 0 ≡ i = cc in absurd (omega arith)
  | inr e ↦
      let h' : shift (index s text) ≡ some i = rw e at h in
      let (k, hk, ek) = shift-some (index s text) h' in
      index_first text s k hk j (omega (arith, ek, lt))
]

index_absent :
    (text s : Bytes)
    → index s text ≡ none
    → (j : ℕ) → j ≤ length s
    → has_prefix (drop j s) text ≡ false
index_absent text [] h zero le = elim (Bool-cases (has_prefix [] text)) [
  | inl e ↦ let h' : ◌≡◌ {A = Option ℕ} (some 0) none = rw e at h in cc
  | inr e ↦ e
]
index_absent text [] h (suc j) le = absurd (omega arith)
index_absent text (c ∷ s) h zero le = elim (Bool-cases (has_prefix (c ∷ s) text)) [
  | inl e ↦ let h' : ◌≡◌ {A = Option ℕ} (some 0) none = rw e at h in cc
  | inr e ↦ e
]
index_absent text (c ∷ s) h (suc j) le = elim (Bool-cases (has_prefix (c ∷ s) text)) [
  | inl e ↦ let h' : ◌≡◌ {A = Option ℕ} (some 0) none = rw e at h in cc
  | inr e ↦
      let h' : shift (index s text) ≡ none = rw e at h in
      index_absent text s (shift-none (index s text) h') j (omega (arith, le))
]

drop_nil : (n : ℕ) → drop {A = ℕ} n [] ≡ []
drop_nil zero = refl
drop_nil (suc n) = refl

drop-drop : (m n : ℕ) (s : Bytes) → drop m (drop n s) ≡ drop (n + m) s
drop-drop m zero s = rw zero-add
drop-drop zero (suc n) [] = ground arith
drop-drop (suc m) (suc n) [] = sym (drop_nil (suc n + suc m))
drop-drop m (suc n) (c ∷ s) =
    let e : suc (n + m) ≡ suc n + m = omega arith in drop-drop m n s ∙ ap (λ t. drop t (c ∷ s)) e

take-drop : (n : ℕ) (s : Bytes) → s ≡ take n s ++ drop n s
take-drop zero s = refl
take-drop (suc n) [] = refl
take-drop (suc n) (c ∷ s) = ap (λ t. c ∷ t) (take-drop n s)

drop-append : (s t : Bytes) → drop (length s) (s ++ t) ≡ t
drop-append [] t = refl
drop-append (c ∷ s) t = drop-append s t

length_part-le : (s t : Bytes) → length s ≤ length (s ++ t)
length_part-le [] t = omega arith
length_part-le (c ∷ s) t = omega (arith, length_part-le s t)

-- What `alone` found out.
alone_some :
    (i : ℕ) (rest : Option Bytes) (text : Bytes) {k : ℕ}
    → alone i rest text ≡ some (some k)
    → (r : Bytes) × (rest ≡ some r) × (index r text ≡ none) × (i ≡ k)
alone_some i none text {k} h = let h' : ◌≡◌ {A = Option (Option ℕ)} none (some (some k)) = h in cc
alone_some i (some r) text {k} h = elim (Option-cases (index r text)) [
  | inl e ↦ let h' : some (some i) ≡ some (some k) = rw e at h in (r, refl, e, cc)
  | inr (j, e) ↦ let h' : ◌≡◌ {A = Option (Option ℕ)} (some none) (some (some k)) = rw e at h in cc
]

slice_from-some :
    (n : ℕ) (s : Bytes) {r : Bytes} → slice_from n s ≡ some r → (n ≤ length s) × (drop n s ≡ r)
unfolding slice_from
slice_from-some n s {r} h = elim (Bool-cases (ltb (length s) n)) [
  | inl e ↦ let h' : ◌≡◌ {A = Option Bytes} none (some r) = rw e at h in cc
  | inr e ↦ let h' : some (drop n s) ≡ some r = rw e at h in (ground arith, cc)
]

-- The text stands at the index, and wherever the file is read as something before the text, the text, and
-- something after it, it is there.
pub record IsOnlyAt (i : ℕ) (text file : Bytes) : Type 0 where
  pub stands : file ≡ take i file ++ (text ++ drop (i + length text) file)
  pub alone : (before after : Bytes) → file ≡ before ++ (text ++ after) → length before ≡ i

order : (a b : ℕ) → (a < b) ⊎ ((a ≡ b) ⊎ (b < a))
order a b = elim (dec_lt a b) [
  | yes h ↦ inl h
  | no h ↦ elim (dec_lt b a) [ yes k ↦ inr (inr k) | no k ↦ inr (inl (omega arith)) ]
]

module _ (file text : Bytes) (i : ℕ) (found : index file text ≡ some i)
    (later : index (drop (i + 1) file) text ≡ none) (room : i + 1 ≤ length file) where
  only_at : (before after : Bytes) → file ≡ before ++ (text ++ after) → length before ≡ i
  only_at before after e =
      let n = length before in
      let le : n ≤ length file = rw e (length_part-le before (text ++ after)) in
      let here : drop n file ≡ text ++ after = rw e (drop-append before (text ++ after)) in
      let stands : StandsAt n text file = rw here (append-has_prefix text after) in
      elim (order n i) [
        | inl lt ↦ let no_prefix = index_first text file i found n lt in cc
        | inr (inl same) ↦ same
        | inr (inr gt) ↦
            let k = n - (i + 1) in
            let deep : drop k (drop (i + 1) file) ≡ drop n file =
              drop-drop k (i + 1) file ∙ ap (λ t. drop t file) (omega arith) in
            let no_prefix =
              index_absent text (drop (i + 1) file) later k
                (omega (arith, length-drop (i + 1) file)) in
            let no_prefix' : has_prefix (drop n file) text ≡ false = rw deep at no_prefix in cc
      ]

  only-IsOnlyAt : IsOnlyAt i text file
  only-IsOnlyAt = record {
    stands =
        let (stands, le) = index_found text file i found in
        let split = has_prefix-append text (drop i file) stands in
        take-drop i file
        ∙ ap (λ t. take i file ++ t) (split ∙ ap (λ t. text ++ t) (drop-drop (length text) i file));
    alone = only_at;
  }

unique_index-IsOnlyAt :
    (file text : Bytes) (k : ℕ) → unique_index file text ≡ some (some k) → IsOnlyAt k text file
unfolding unique_index
unique_index-IsOnlyAt file text k h = elim (Option-cases (index file text)) [
  | inl e ↦ let h' : ◌≡◌ {A = Option (Option ℕ)} (some none) (some (some k)) = rw e at h in cc
  | inr (i, e) ↦
      let h' : alone i (slice_from (i + 1) file) text ≡ some (some k) = rw e at h in
      let (r, hr, none_after, same) = alone_some i (slice_from (i + 1) file) text h' in
      let (room, rest) = slice_from-some (i + 1) file hr in
      let later : index (drop (i + 1) file) text ≡ none = rw rest none_after in
      subst (λ j. IsOnlyAt j text file) same (only-IsOnlyAt file text i e later room)
]

-- A later stage is never called exact.
abbrev NotExact : Option (Option Match) → Type 0
NotExact (some (some m)) = m.method ≢ Method.exact
NotExact _ = Unit

or_else-NotExact :
    (n : ℕ) (u : Option (Option ℕ)) (later : Option (Option Match))
    → NotExact later
    → NotExact (or_else n Method.normalized u later)
or_else-NotExact n none later h = tt
or_else-NotExact n (some none) later h = h
or_else-NotExact n (some (some i)) later h = λ e. cc

or_else_exact :
    (n : ℕ) (u : Option (Option ℕ)) (later : Option (Option Match)) (m : Match)
    → or_else n Method.exact u later ≡ some (some m)
    → m.method ≡ Method.exact
    → NotExact later
    → (u ≡ some (some m.start)) × (m.end ≡ m.start + n)
or_else_exact n none later m h e no_later =
    let h' : ◌≡◌ {A = Option (Option Match)} none (some (some m)) = h in cc
or_else_exact n (some none) later m h e no_later = absurd (subst NotExact h no_later e)
or_else_exact n (some (some i)) later m h e no_later =
    let h' : some (some (record { start = i; end = i + n; method = Method.exact }))
        ≡ some (some m) =
      h in
    (cc, cc)

module _ (f : Floats) (sort : List (Candidate f) → List (Candidate f)) where
  fuzzy-NotExact : (file search : List Bytes) → NotExact (some (fuzzy_match f sort file search))
  unfolding fuzzy_match
  fuzzy-NotExact file search =
      if_cases (λ o. NotExact (some o)) ((length search == 0) || ltb (length file) (length search))
        none _ (λ e. tt)
        (λ e.
          if_cases (λ o. NotExact (some o)) (ltb 20000 (length file)) none _ (λ e. tt)
            (λ e. placed (settle f none file search (candidates_of f sort file search))))
    where
      placed : (o : Option ℕ) → NotExact (some (fuzzy_of file (length search) o))
      placed none = tt
      placed (some p) = λ e. cc

  -- Where FindMatch returns an exact match, the text stands at its start and ends at its end, and it stands nowhere
  -- else in the file, not even overlapping itself.
  pub find_match_exact :
      (file text : Bytes) (m : Match)
      → find_match f sort file text ≡ some (some m)
      → m.method ≡ Method.exact
      → IsOnlyAt m.start text file × (m.end ≡ m.start + length text)
  unfolding find_match
  find_match_exact file text m h e =
      let normal_file = normalize_lines file in
      let normal_text = normalize_lines text in
      let stripped = strip_blank_edges normal_text in
      let last = some (fuzzy_match f sort (split_on 10 normal_file) (split_on 10 stripped)) in
      let no_last = fuzzy-NotExact (split_on 10 normal_file) (split_on 10 stripped) in
      let no_edges =
        or_else-NotExact (length stripped) (unique_index normal_file stripped) last no_last in
      let no_later =
        if_cases NotExact (bytes_eq stripped normal_text) last _ (λ q. no_last) (λ q. no_edges) in
      let (u, ends) =
        or_else_exact (length text) (unique_index file text) _ m h e (
          or_else-NotExact (length normal_text) (unique_index normal_file normal_text) _
            no_later) in
      (unique_index-IsOnlyAt file text m.start u, ends)

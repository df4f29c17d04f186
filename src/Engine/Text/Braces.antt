-- ===== src/Engine/Text/Braces.antt =====
-- What extractJsonSubstring (bot/orchestrator/engine/parser.go) cuts out.
use shipmates_oss.Prelude.{
  ℕ, ◌≡◌, refl, sym, ap, ◌∙◌, ◌⊎◌, inl, inr, Bool, false, not, none, some, [], ◌∷◌, ◌++◌, exists,
  length, ◌==◌, Bool-cases, ==_iff, arith,
}
use shipmates_oss.Prelude.Bytes.{Bytes, trim_left, trim_right, keep_byte}
use shipmates_oss.Engine.Text.{extract_json_substring}

-- A text cut in three: before the first brace that opens and after the last that closes there is no such brace.
pub record CutsOut (text part : Bytes) : Type 0 where
  pub before : Bytes
  pub between : Bytes
  pub after : Bytes
  pub whole : text ≡ before ++ (part ++ after)
  pub none_before : exists (λ c. c == b'{') before ≡ false
  pub none_after : exists (λ c. c == b'}') after ≡ false
  pub braces : part ≡ b'{' ∷ (between ++ (b'}' ∷ []))

-- Neither: no brace that closes stands after the first that opens.
abbrev pub NothingToCut : Bytes → Type 0
NothingToCut text =
    (before : Bytes) × (after : Bytes) × (text ≡ before ++ after)
    × (exists (λ c. c == b'{') before ≡ false)
    × (exists (λ c. c == b'}') after ≡ false)

record LeftOf (b : ℕ) (s : Bytes) : Type 0 where
  before : Bytes
  whole : s ≡ before ++ trim_left (λ c. not (c == b)) s
  free : exists (λ c. c == b) before ≡ false
  start :
      (trim_left (λ c. not (c == b)) s ≡ [])
      ⊎ ((rest : Bytes) × (trim_left (λ c. not (c == b)) s ≡ b ∷ rest))

left_of : (b : ℕ) (s : Bytes) → LeftOf b s
left_of b [] = record { before = []; whole = refl; free = refl; start = inl refl }
left_of b (c ∷ s) = elim (Bool-cases (c == b)) [
  | inl e ↦ record {
    before = [];
    whole = rw e refl;
    free = refl;
    start = inr (s, rw e (ap (λ d. d ∷ s) ((==_iff c b).0 e)));
  }
  | inr e ↦
      let l = left_of b s in
      let tail : s ≡ l.before ++ trim_left (λ c. not (c == b)) s = l.whole in
      let free = l.free in
      record {
        before = c ∷ l.before;
        whole = rw e (ap (λ t. c ∷ t) tail);
        free = rw (e, free);
        start = rw e l.start;
      }
]

record RightOf (b : ℕ) (s : Bytes) : Type 0 where
  after : Bytes
  whole : s ≡ trim_right (λ c. not (c == b)) s ++ after
  free : exists (λ c. c == b) after ≡ false
  end :
      (trim_right (λ c. not (c == b)) s ≡ [])
      ⊎ ((rest : Bytes) × (trim_right (λ c. not (c == b)) s ≡ rest ++ (b ∷ [])))

keep_onto :
    (p : ℕ → Bool) (c b : ℕ) (rest : Bytes)
    → keep_byte p c (rest ++ (b ∷ [])) ≡ c ∷ (rest ++ (b ∷ []))
keep_onto p c b [] = refl
keep_onto p c b (d ∷ rest) = refl

right_of : (b : ℕ) (s : Bytes) → RightOf b s
right_of b [] = record { after = []; whole = refl; free = refl; end = inl refl }
right_of b (c ∷ s) =
    let r = right_of b s in
    elim r.end [
      | inr (rest, e) ↦
          let kept =
            ap (keep_byte (λ d. not (d == b)) c) e ∙ keep_onto (λ d. not (d == b)) c b rest in
          let tail : s ≡ (rest ++ (b ∷ [])) ++ r.after = r.whole ∙ ap (λ t. t ++ r.after) e in
          record {
            after = r.after;
            whole = rw kept (ap (λ t. c ∷ t) tail);
            free = r.free;
            end = inr (c ∷ rest, kept);
          }
      | inl e ↦
          let tail : s ≡ r.after = r.whole ∙ ap (λ t. t ++ r.after) e in
          let free = ap (exists (λ d. d == b)) tail ∙ r.free in
          elim (Bool-cases (c == b)) [
            | inl k ↦ record {
              after = s;
              whole = rw (e, k) refl;
              free = free;
              end = inr ([], rw (e, k) (ap (λ d. d ∷ []) ((==_iff c b).0 k)));
            }
            | inr k ↦ record {
              after = c ∷ s;
              whole = rw (e, k) refl;
              free = rw (k, free) refl;
              end = inl (rw (e, k) refl);
            }
          ]
    ]

nonempty_end : (b : ℕ) (rest : Bytes) → (length (rest ++ (b ∷ [])) == 0) ≡ false
nonempty_end b [] = refl
nonempty_end b (c ∷ rest) = ground arith

starts_too :
    (rest after x : Bytes)
    → (rest ++ (b'}' ∷ [])) ++ after ≡ b'{' ∷ x
    → (between : Bytes) × (rest ++ (b'}' ∷ []) ≡ b'{' ∷ (between ++ (b'}' ∷ [])))
starts_too [] after x h = absurd (
    let h' : ◌≡◌ {A = Bytes} (b'}' ∷ after) (b'{' ∷ x) = h in
    let heads : ◌≡◌ {A = ℕ} b'}' b'{' = cc in omega (arith, heads))
starts_too (d ∷ rest) after x h =
    let h' : ◌≡◌ {A = Bytes} (d ∷ ((rest ++ (b'}' ∷ [])) ++ after)) (b'{' ∷ x) = h in
    let heads : ◌≡◌ {A = ℕ} d b'{' = cc in (rest, ap (λ c. c ∷ (rest ++ (b'}' ∷ []))) heads)

nothing_left : (rest s after : Bytes) → s ≡ [] → s ≡ (rest ++ (b'}' ∷ [])) ++ after → ⊥
nothing_left [] s after e h = cc
nothing_left (d ∷ rest) s after e h = cc

started :
    (rest after : Bytes) {s : Bytes}
    → s ≡ (rest ++ (b'}' ∷ [])) ++ after
    → (s ≡ []) ⊎ ((x : Bytes) × (s ≡ b'{' ∷ x))
    → (between : Bytes) × (rest ++ (b'}' ∷ []) ≡ b'{' ∷ (between ++ (b'}' ∷ [])))
started rest after {s} tail (inl e) = absurd (nothing_left rest s after e tail)
started rest after tail (inr (x, e)) = starts_too rest after x (sym tail ∙ e)

-- extractJsonSubstring finds a part that starts with the text's first brace that opens and ends with its last
-- that closes, and fails exactly where no brace that closes stands after the first that opens.
pub extract_json_substring_lem :
    (text : Bytes)
    → ((part : Bytes) × (extract_json_substring text ≡ some part) × CutsOut text part)
      ⊎ ((extract_json_substring text ≡ none) × NothingToCut text)
unfolding extract_json_substring
extract_json_substring_lem text =
    let l = left_of b'{' text in
    let r = right_of b'}' (trim_left (λ c. not (c == b'{')) text) in
    elim r.end [
      | inl e ↦
          let tail = r.whole ∙ ap (λ t. t ++ r.after) e in
          inr
            (rw e refl, (l.before, r.after, l.whole ∙ ap (λ t. l.before ++ t) tail, l.free, r.free))
      | inr (rest, e) ↦
          let tail = r.whole ∙ ap (λ t. t ++ r.after) e in
          let (between, braces) = started rest r.after tail l.start in
          inl (
            rest ++ (b'}' ∷ []),
            rw (e, nonempty_end b'}' rest) refl,
            record {
              before = l.before;
              between = between;
              after = r.after;
              whole = l.whole ∙ ap (λ t. l.before ++ t) tail;
              none_before = l.free;
              none_after = r.free;
              braces = braces;
            },
          )
    ]

-- ===== src/Relay/Persist/Groups.antt =====
-- The groups of flushBatch (stream-relay/main.go).
use shipmates_oss.Prelude.{
  ℕ, zero, suc, ◌≤◌, ◌<◌, ◌≡◌, refl, ap, ◌∙◌, inl, inr, false, List, [], ◌∷◌, ◌++◌, append-nil, ltb,
  ◌==◌, length, length-take, length-drop, take, drop, Bool-cases, All, arith,
}
use shipmates_oss.Relay.Persist.{PersistJob, flush_from, flush_batch}

abbrev pub concat : {A : Type 0} → List (List A) → List A
concat [] = []
concat (xs ∷ xss) = xs ++ concat xss

take-drop : {A : Type 0} (n : ℕ) (xs : List A) → take n xs ++ drop n xs ≡ xs
take-drop zero xs = refl
take-drop (suc n) [] = refl
take-drop (suc n) (x ∷ xs) = ap (λ ys. x ∷ ys) (take-drop n xs)

take_whole : {A : Type 0} (xs : List A) → take (length xs) xs ≡ xs
take_whole [] = refl
take_whole (x ∷ xs) = ap (λ ys. x ∷ ys) (take_whole xs)

-- The number of rows that a prepared query has.
abbrev pub IsStatement : List PersistJob → Type 0
IsStatement rows = (0 < length rows) × (length rows ≤ 50)

flush_from_lem :
    (calls : ℕ) (batch : List PersistJob)
    → length batch ≤ calls
    → (concat (flush_from calls batch) ≡ batch) × All IsStatement (flush_from calls batch)
unfolding flush_from
flush_from_lem zero [] h = (refl, tt)
flush_from_lem zero (x ∷ batch) h = absurd (omega (arith, h))
flush_from_lem (suc calls) [] h = (refl, tt)
flush_from_lem (suc calls) (x ∷ batch) h =
    let rows = x ∷ batch in
    let any_row : (length rows == 0) ≡ false = ground arith in
    elim (Bool-cases (ltb 50 (length rows))) [
      | inl e ↦
          let l = length-drop 50 rows in
          let m = length-take 50 rows in
          let (whole, sizes) = flush_from_lem calls (drop 50 rows) (ground arith) in
          rw (any_row, e)
            (
              ap (λ t. take 50 rows ++ t) whole ∙ take-drop 50 rows,
              ((ground arith, omega (arith, m)), sizes),
            )
      | inr e ↦
          let m = take_whole rows in
          let lm : length (take (length rows) rows) ≡ length rows = ap length m in
          rw (any_row, e)
            (append-nil (take (length rows) rows) ∙ m, ((omega (arith, lm), ground arith), tt))
    ]

-- flushBatch calls itself at most once for each row, and executes statements of 1 to 50 rows, which are together
-- the rows of the batch, each once and in their order.
pub flush_batch_lem :
    (batch : List PersistJob)
    → (concat (flush_batch batch) ≡ batch) × All IsStatement (flush_batch batch)
unfolding flush_batch
flush_batch_lem batch = flush_from_lem (length batch) batch (omega arith)

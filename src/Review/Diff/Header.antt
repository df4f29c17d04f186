-- ===== src/Review/Diff/Header.antt =====
-- parseHunkHeader (pr-review/review/parser.go) on the headers that git writes.
use shipmates_oss.Prelude.{
  ℕ, suc, ◌+◌, ◌≡◌, refl, sym, ap, ◌∙◌, inl, inr, Bool, true, false, ◌&&◌, ◌||◌, some, [], ◌∷◌,
  ◌++◌, take, drop, length, leb, ◌==◌, ==_iff, Bool-cases, All, All-imp, arith,
}
use shipmates_oss.Prelude.Bytes.{Bytes, codes, index, split_on, is_space, trim_right, trim_space}
use shipmates_oss.Prelude.Prefixes.{append-has_prefix}
use shipmates_oss.Review.Diff.{
  DiffHunk, header, header_at, header_parts, header_until, parse_line_num, parse_hunk_header,
}

abbrev pub is_digit : ℕ → Bool
is_digit c = leb b'0' c && leb c b'9'

-- The parts of a header: the range of the old file, the start and the number of lines of the new one, and what follows.
pub record GitHeader : Type 0 where
  pub old : Bytes
  pub start : Bytes
  pub count : Bytes
  pub rest : Bytes
  pub old_digits : All (λ c. (is_digit c || c == b',') ≡ true) old
  pub start_digits : All (λ c. is_digit c ≡ true) start
  pub count_digits : All (λ c. is_digit c ≡ true) count

abbrev pub ranges : Bytes → Bytes → Bytes → Bytes
ranges old start count =
    b' ' ∷ (b'-' ∷ (old ++ (b' ' ∷ (b'+' ∷ (start ++ (b',' ∷ (count ++ (b' ' ∷ []))))))))

-- @@ -old +start,count @@rest
abbrev pub header_text : GitHeader → Bytes
header_text g = codes "@@" ++ (ranges g.old g.start g.count ++ (codes "@@" ++ g.rest))

abbrev Lacks : ℕ → Bytes → Type 0
Lacks b = All (λ c. (c == b) ≡ false)

All-append : (P : ℕ → Type 0) (xs ys : Bytes) → All P xs → All P ys → All P (xs ++ ys)
All-append P [] ys h k = k
All-append P (x ∷ xs) ys h k = (h.0, All-append P xs ys h.1 k)

index-append :
    (d : ℕ) (ps xs rest : Bytes)
    → Lacks d xs
    → index (xs ++ ((d ∷ ps) ++ rest)) (d ∷ ps) ≡ some (length xs)
index-append d ps [] rest h = rw (append-has_prefix (d ∷ ps) rest) refl
index-append d ps (x ∷ xs) rest h = rw (h.0, index-append d ps xs rest h.1) refl

take-append : (xs ys : Bytes) → take (length xs) (xs ++ ys) ≡ xs
take-append [] ys = refl
take-append (x ∷ xs) ys = ap (λ l. x ∷ l) (take-append xs ys)

drop-append : (xs : Bytes) (y : ℕ) (ys : Bytes) → drop (length xs + 1) (xs ++ (y ∷ ys)) ≡ ys
drop-append [] y ys = refl
drop-append (x ∷ xs) y ys =
    let e : suc (length xs) + 1 ≡ suc (length xs + 1) = omega arith in rw e (drop-append xs y ys)

split_on-append :
    (b : ℕ) (xs ys : Bytes)
    → Lacks b xs
    → (b == b) ≡ true
    → split_on b (xs ++ (b ∷ ys)) ≡ xs ∷ split_on b ys
split_on-append b [] ys h e = rw e refl
split_on-append b (x ∷ xs) ys h e = rw (h.0, split_on-append b xs ys h.1 e) refl

split_on_whole : (b : ℕ) (xs : Bytes) → Lacks b xs → split_on b xs ≡ xs ∷ []
split_on_whole b [] h = refl
split_on_whole b (x ∷ xs) h = rw (h.0, split_on_whole b xs h.1) refl

trim_end :
    (xs : Bytes) → All (λ c. is_space c ≡ false) xs → trim_right is_space (xs ++ (b' ' ∷ [])) ≡ xs
trim_end [] h = refl
trim_end (x ∷ []) h = rw h.0 refl
trim_end (x ∷ y ∷ xs) h = rw (trim_end (y ∷ xs) h.1) refl

trim_later :
    (xs zs : Bytes) (d : ℕ) (s : Bytes)
    → trim_right is_space zs ≡ d ∷ s
    → trim_right is_space (xs ++ zs) ≡ xs ++ (d ∷ s)
trim_later [] zs d s h = h
trim_later (x ∷ []) zs d s h = rw h refl
trim_later (x ∷ y ∷ xs) zs d s h = rw (trim_later (y ∷ xs) zs d s h) refl

digit_lacks : (b c : ℕ) → is_digit b ≡ false → is_digit c ≡ true → (c == b) ≡ false
digit_lacks b c h k = elim (Bool-cases (c == b)) [
  | inl e ↦
      let same = (==_iff c b).0 e in let both : true ≡ false = sym k ∙ (ap is_digit same ∙ h) in cc
  | inr e ↦ e
]

digits-Lacks :
    (b : ℕ) (xs : Bytes) → is_digit b ≡ false → All (λ c. is_digit c ≡ true) xs → Lacks b xs
digits-Lacks b xs h k =
    All-imp (λ c. is_digit c ≡ true) (λ c. (c == b) ≡ false) xs (λ c. digit_lacks b c h) k

range_space : (c : ℕ) → (is_digit c || c == b',') ≡ true → (c == b' ') ≡ false
range_space c h = ground arith

range_at : (c : ℕ) → (is_digit c || c == b',') ≡ true → (c == b'@') ≡ false
range_at c h = ground arith

digit_space : (c : ℕ) → is_digit c ≡ true → is_space c ≡ false
digit_space c h = ground arith

-- The header between the two marks, trimmed.
abbrev trimmed : Bytes → Bytes → Bytes → Bytes
trimmed old start count = b'-' ∷ (old ++ (b' ' ∷ (b'+' ∷ (start ++ (b',' ∷ count)))))

module _ (g : GitHeader) where
  no_at : Lacks b'@' (ranges g.old g.start g.count)
  no_at =
      let counts : Lacks b'@' (g.count ++ (b' ' ∷ [])) =
        All-append _ g.count (b' ' ∷ []) (digits-Lacks b'@' g.count refl g.count_digits)
          (refl, tt) in
      let starts : Lacks b'@' (g.start ++ (b',' ∷ (g.count ++ (b' ' ∷ [])))) =
        All-append _ g.start _ (digits-Lacks b'@' g.start refl g.start_digits) (refl, counts) in
      let olds : Lacks b'@' (b'-' ∷ g.old) =
        (refl, All-imp _ (λ c. (c == b'@') ≡ false) g.old range_at g.old_digits) in
      (refl, All-append _ (b'-' ∷ g.old) _ olds (refl, (refl, starts)))

  trim_ranges : trim_space (ranges g.old g.start g.count) ≡ trimmed g.old g.start g.count
  trim_ranges =
      let spaces : All (λ c. is_space c ≡ false) (b',' ∷ g.count) =
        (refl, All-imp _ (λ c. is_space c ≡ false) g.count digit_space g.count_digits) in
      let last = trim_end (b',' ∷ g.count) spaces in
      let middle =
        trim_later (b'+' ∷ g.start) (b',' ∷ (g.count ++ (b' ' ∷ []))) b',' g.count last in
      let from_space =
        trim_later (b' ' ∷ []) (b'+' ∷ (g.start ++ (b',' ∷ (g.count ++ (b' ' ∷ []))))) b'+'
          (g.start ++ (b',' ∷ g.count)) middle in
      trim_later (b'-' ∷ g.old) (b' ' ∷ (b'+' ∷ (g.start ++ (b',' ∷ (g.count ++ (b' ' ∷ []))))))
        b' ' (b'+' ∷ (g.start ++ (b',' ∷ g.count))) from_space

  split_ranges :
      split_on b' ' (trimmed g.old g.start g.count)
      ≡ (b'-' ∷ g.old) ∷ (b'+' ∷ (g.start ++ (b',' ∷ g.count))) ∷ []
  split_ranges =
      split_on-append b' ' (b'-' ∷ g.old) (b'+' ∷ (g.start ++ (b',' ∷ g.count)))
        (refl, All-imp _ (λ c. (c == b' ') ≡ false) g.old range_space g.old_digits) refl
      ∙ ap (λ l. (b'-' ∷ g.old) ∷ l)
          (split_on_whole b' ' (b'+' ∷ (g.start ++ (b',' ∷ g.count))) (
            refl,
            All-append _ g.start _ (digits-Lacks b' ' g.start refl g.start_digits)
                (refl, digits-Lacks b' ' g.count refl g.count_digits),
          ))

  abbrev read : DiffHunk
  read = header (parse_line_num g.start) (parse_line_num g.count)

  part_read :
      header_at (g.start ++ (b',' ∷ g.count)) (index (g.start ++ (b',' ∷ g.count)) (codes ","))
      ≡ read
  part_read =
      rw
        (
          index-append b',' [] g.start g.count (digits-Lacks b',' g.start refl g.start_digits),
          take-append g.start (b',' ∷ g.count),
          drop-append g.start b',' g.count,
        )
        refl

  -- The header that git writes for a start and a number of lines is read as these.
  pub parse_hunk_header-header_text : parse_hunk_header (header_text g) ≡ read
  unfolding parse_hunk_header
  parse_hunk_header-header_text =
      let m = ranges g.old g.start g.count in
      let rest = codes "@@" ++ g.rest in
      ap (header_until (m ++ rest)) (index-append b'@' (b'@' ∷ []) m g.rest no_at)
      ∙ ap (λ t. header_parts (split_on b' ' (trim_space t)) (header 0 0)) (take-append m rest)
      ∙ ap (λ t. header_parts (split_on b' ' t) (header 0 0)) trim_ranges
      ∙ ap (λ ps. header_parts ps (header 0 0)) split_ranges
      ∙ part_read

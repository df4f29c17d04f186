-- ===== src/Engine/Match.antt =====
-- FindMatch of bot/orchestrator/engine/apply.go: where a text to be replaced stands in a file. The
-- outcome `none` is a panic: a slice that starts past the end.
pub mod Exact
use shipmates_oss.Prelude.{
  ℕ, zero, suc, ◌+◌, ◌-◌, ◌*◌, ◌%◌, ◌^◌, Bool, true, false, not, ◌&&◌, ◌||◌, Option, none, some,
  List, [], ◌∷◌, ◌++◌, map, ltb, leb, ◌==◌, if◌then◌else◌, length, take, drop, exists, select,
  count,
}
use shipmates_oss.Prelude.Bytes.{
  Bytes, bytes_eq, index, split_on, join, is_space, trim_left, trim_right, trim_space,
}
use shipmates_oss.Engine.Similarity.{Floats, levenshtein_ratio}

pub data Method : Type 0 where
  exact normalized fuzzy : Method

pub record Match : Type 0 where
  pub start : ℕ
  pub end : ℕ
  pub method : Method

-- strings.TrimRight(line, " \t\r")
abbrev pub is_blank : ℕ → Bool
is_blank c = c == 32 || c == 9 || c == 13

unfoldable pub normalize_lines : Bytes → Bytes
normalize_lines text = join 10 (map (trim_right is_blank) (split_on 10 text))

abbrev pub is_nothing : Bytes → Bool
is_nothing line = length (trim_space line) == 0

-- The loop over `start`.
abbrev pub skip_nothing : List Bytes → List Bytes
skip_nothing [] = []
skip_nothing (l ∷ ls) = let rest = skip_nothing ls in if is_nothing l then rest else l ∷ ls

abbrev pub keep_line : Bytes → List Bytes → List Bytes
keep_line l [] = if is_nothing l then [] else l ∷ []
keep_line l (m ∷ ms) = l ∷ m ∷ ms

-- The loop over `end`.
abbrev pub drop_nothing : List Bytes → List Bytes
drop_nothing [] = []
drop_nothing (l ∷ ls) = keep_line l (drop_nothing ls)

unfoldable pub strip_blank_edges : Bytes → Bytes
strip_blank_edges text = join 10 (drop_nothing (skip_nothing (split_on 10 text)))

-- s[n:]
unfoldable pub slice_from : ℕ → Bytes → Option Bytes
slice_from n s = if ltb (length s) n then none else some (drop n s)

abbrev pub if_alone : ℕ → Option ℕ → Option (Option ℕ)
if_alone i none = some (some i)
if_alone i (some j) = some none

abbrev pub alone : ℕ → Option Bytes → Bytes → Option (Option ℕ)
alone i none text = none
alone i (some rest) text = if_alone i (index rest text)

abbrev pub unique_from : Option ℕ → Bytes → Bytes → Option (Option ℕ)
unique_from none file text = some none
unique_from (some i) file text = alone i (slice_from (i + 1) file) text

-- The index of a text that a file holds just once.
unfoldable pub unique_index : Bytes → Bytes → Option (Option ℕ)
unfolding slice_from
unique_index file text = unique_from (index file text) file text

-- hash*31 + uint32(line[i]), in uint32
abbrev pub hash_from : ℕ → Bytes → ℕ
hash_from hash [] = hash
hash_from hash (c ∷ s) = hash_from ((hash * 31 + c) % 2 ^ 32) s

unfoldable pub compute_line_hash : Bytes → ℕ
compute_line_hash line = hash_from 0 line

abbrev pub has_number : List ℕ → ℕ → Bool
has_number ns n = exists (λ m. m == n) ns

-- The keys of a map that these values are put into.
abbrev pub distinct : List ℕ → List ℕ
distinct [] = []
distinct (n ∷ ns) = let rest = distinct ns in if has_number ns n then rest else n ∷ rest

abbrev pub line_starts : ℕ → ℕ → List ℕ
line_starts i zero = []
line_starts i (suc n) = i ∷ line_starts (i + 1) n

pub record Candidate (f : Floats) : Type 0 where
  pub position : ℕ
  pub score : f.Float

-- len(l) + 1 for each line before a position
abbrev pub chars_before : List Bytes → ℕ
chars_before [] = 0
chars_before (l ∷ ls) = length l + 1 + chars_before ls

abbrev pub fuzzy_at : List Bytes → ℕ → ℕ → Match
fuzzy_at file size p =
    let start = chars_before (take p file) in
    record {
      start = start;
      end = start + length (join 10 (take size (drop p file)));
      method = Method.fuzzy;
    }

abbrev pub fuzzy_of : List Bytes → ℕ → Option ℕ → Option Match
fuzzy_of file size none = none
fuzzy_of file size (some p) = some (fuzzy_at file size p)

abbrev pub or_else : ℕ → Method → Option (Option ℕ) → Option (Option Match) → Option (Option Match)
or_else size method none later = none
or_else size method (some (some i)) later =
    some (some (record { start = i; end = i + size; method = method }))
or_else size method (some none) later = later

-- sort.Slice puts candidates of one score in any order: sorting is a parameter.
module _ (f : Floats) where
  -- totalSimilarity
  abbrev pub similarity : f.Float → List Bytes → List Bytes → f.Float
  similarity total (l ∷ ls) (s ∷ ss) =
      similarity (f.add total (levenshtein_ratio f l s f.fuzzy_threshold)) ls ss
  similarity total _ _ = total

  abbrev pub is_similar : List Bytes → List Bytes → Bool
  is_similar search window = not (
      f.less (f.over (similarity f.zero (take (length search) window) search) (length search))
        f.fuzzy_threshold)

  -- The loop over the candidates; the first argument is matchPosition. A second match ends it.
  abbrev pub settle : Option ℕ → List Bytes → List Bytes → List ℕ → Option ℕ
  settle found file search [] = found
  settle none file search (p ∷ ps) =
      let one = settle (some p) file search ps in
      let go = settle none file search ps in if is_similar search (drop p file) then one else go
  settle (some q) file search (p ∷ ps) =
      let go = settle (some q) file search ps in
      if is_similar search (drop p file) then none else go

  abbrev pub overlap_score : List Bytes → List Bytes → ℕ → f.Float
  overlap_score file search p =
      let hashes = distinct (map compute_line_hash search) in
      f.share
        (count (λ l. has_number hashes (compute_line_hash l)) (take (length search) (drop p file)))
        (length hashes)

  abbrev pub candidates_of :
      (List (Candidate f) → List (Candidate f)) → List Bytes → List Bytes → List ℕ
  candidates_of sort file search =
      let all = line_starts 0 (length file - length search + 1) in
      if ltb 500 (length file)
      then map (λ (c : Candidate f). c.position)
          (take 10 (
            sort (
              select (λ (c : Candidate f). not (f.less c.score f.half))
                (map (λ p. record { position = p; score = overlap_score file search p }) all))))
      else all

  unfoldable pub fuzzy_match :
      (List (Candidate f) → List (Candidate f)) → List Bytes → List Bytes → Option Match
  fuzzy_match sort file search =
      if (length search == 0) || ltb (length file) (length search)
      then none
      else if ltb 20000 (length file)
      then none
      else fuzzy_of file (length search) (settle none file search (candidates_of sort file search))

  unfoldable pub find_match :
      (List (Candidate f) → List (Candidate f)) → Bytes → Bytes → Option (Option Match)
  unfolding unique_index normalize_lines strip_blank_edges
  find_match sort file text =
      let normal_file = normalize_lines file in
      let normal_text = normalize_lines text in
      let stripped = strip_blank_edges normal_text in
      let fuzzy = some (fuzzy_match sort (split_on 10 normal_file) (split_on 10 stripped)) in
      let by_edges =
        or_else (length stripped) Method.normalized (unique_index normal_file stripped) fuzzy in
      or_else (length text) Method.exact (unique_index file text) (
        or_else (length normal_text) Method.normalized (unique_index normal_file normal_text)
          (if bytes_eq stripped normal_text then fuzzy else by_edges))

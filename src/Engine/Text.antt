-- ===== src/Engine/Text.antt =====
-- The texts around an answer's JSON, in bot/orchestrator/engine/parser.go. A regular expression is a function that
-- finds what it finds; its \s is the ASCII white space without the vertical tab.
pub mod Braces
use shipmates_oss.Prelude.{
  ℕ, zero, suc, ◌+◌, ◌-◌, ◌*◌, Bool, true, false, not, ◌&&◌, ◌||◌, Option, none, some, List, [],
  ◌∷◌, ◌++◌, leb, ◌==◌, if◌then◌else◌, length, take, drop,
}
use shipmates_oss.Prelude.Hex.{hex, hex_pair, onto}
use shipmates_oss.Prelude.Bytes.{
  Bytes, codes, has_prefix, contains, index, is_space, trim_left, trim_right, trim_space,
}

abbrev pub is_re_space : ℕ → Bool
is_re_space c = (leb 9 c && leb c 10) || (leb 12 c && leb c 13) || c == 32

abbrev pub fence : Bytes
fence = codes "```"

abbrev pub without_prefix : Bytes → Bytes → Bytes
without_prefix s p = if has_prefix s p then drop (length p) s else s

abbrev pub has_suffix : Bytes → Bytes → Bool
has_suffix s p =
    if leb (length p) (length s) then has_prefix (drop (length s - length p) s) p else false

-- ^```(?:json)?\s*\n?([\s\S]*?)\n?```\s*$
unfoldable pub strip_markdown_fences : Bytes → Bytes
strip_markdown_fences text =
    if has_prefix text fence
    then (let body = trim_left is_re_space (without_prefix (drop 3 text) (codes "json")) in
        let closed = trim_right is_re_space body in
        if has_suffix closed fence then trim_space (take (length closed - 3) closed) else text)
    else text

-- From the first { to the last }.
unfoldable pub extract_json_substring : Bytes → Option Bytes
extract_json_substring text =
    let from = trim_left (λ c. not (c == b'{')) text in
    let to = trim_right (λ c. not (c == b'}')) from in if length to == 0 then none else some to

-- ReplaceAllString(text, close) for ,\s*close
abbrev pub drop_commas : ℕ → Bytes → Bytes
drop_commas close [] = []
drop_commas close (c ∷ s) =
    let rest = drop_commas close s in
    if (c == b',') && has_prefix (trim_left is_re_space s) (close ∷ [])
    then trim_left is_re_space rest
    else c ∷ rest

unfoldable pub strip_trailing_commas : Bytes → Bytes
strip_trailing_commas text = drop_commas b'}' (drop_commas b']' text)

-- url.QueryUnescape
unfoldable pub query_unescape : Bytes → Option Bytes
query_unescape [] = some []
query_unescape (c ∷ []) =
    if c == b'%' then none else onto (some (if c == b'+' then 32 else c)) (some [])
query_unescape (c ∷ h ∷ []) =
    let rest = query_unescape (h ∷ []) in
    if c == b'%' then none else onto (some (if c == b'+' then 32 else c)) rest
query_unescape (c ∷ h ∷ l ∷ s) =
    let rest = query_unescape (h ∷ l ∷ s) in
    let escaped = onto (hex_pair (hex h) (hex l)) (query_unescape s) in
    if c == b'%' then escaped else onto (some (if c == b'+' then 32 else c)) rest

abbrev pub or_itself : Option Bytes → Bytes → Bytes
or_itself none s = s
or_itself (some d) s = d

abbrev pub open_tag : Bytes
open_tag = codes "<delegate>"

abbrev pub close_tag : Bytes
close_tag = codes "</delegate>"

-- FindAllStringSubmatch for (?s)<delegate>(.*?)</delegate>: what stands in each pair of tags. The number is of
-- the bytes that the last match still covers.
unfoldable pub tagged : ℕ → Bytes → List Bytes
tagged skip [] = []
tagged (suc skip) (c ∷ s) = tagged skip s
tagged zero (c ∷ s) =
    let inner = drop (length open_tag) (c ∷ s) in
    let on = tagged zero s in
    let found : List Bytes = elim (index inner close_tag) [
      | none ↦ []
      | some j ↦ take j inner ∷ tagged (length open_tag + j + length close_tag - 1) s
    ] in
    if has_prefix (c ∷ s) open_tag then found else on

-- ReplaceAllString(raw, "") for the same expression
unfoldable pub untagged : ℕ → Bytes → Bytes
untagged skip [] = []
untagged (suc skip) (c ∷ s) = untagged skip s
untagged zero (c ∷ s) =
    let inner = drop (length open_tag) (c ∷ s) in
    let on = c ∷ untagged zero s in
    let found : Bytes = elim (index inner close_tag) [
      | none ↦ c ∷ s
      | some j ↦ untagged (length open_tag + j + length close_tag - 1) s
    ] in
    if has_prefix (c ∷ s) open_tag then found else on

-- ===== src/Prelude/Bytes.antt =====
-- Texts as the bytes that Go's strings hold, and what the code uses of the package strings.
use Prim.Native.Char.{code}
use Prim.Native.Nat.{ℕ, suc}
use Prim.Native.String.{String}
use mathlib.Core.Bool.{Bool, true, false, ◌&&◌, ◌||◌}
use mathlib.Core.List.{List, [], ◌∷◌, ◌++◌}
use mathlib.Core.Option.{Option, none, some}
use shipmates_oss.Prelude.Tests.{◌==◌, leb, if◌then◌else◌}

abbrev pub Bytes : Type 0
Bytes = List ℕ

-- The code points of a text: its bytes, where the text is ASCII.
abbrev pub codes : String → Bytes
codes String.[] = []
codes (String.◌∷◌ c s) = code c ∷ codes s

abbrev pub bytes_eq : Bytes → Bytes → Bool
bytes_eq [] [] = true
bytes_eq (c ∷ s) (d ∷ t) = c == d && bytes_eq s t
bytes_eq _ _ = false

-- strings.HasPrefix
abbrev pub has_prefix : Bytes → Bytes → Bool
has_prefix s [] = true
has_prefix [] (p ∷ ps) = false
has_prefix (c ∷ s) (p ∷ ps) = c == p && has_prefix s ps

-- strings.Contains
abbrev pub contains : Bytes → Bytes → Bool
contains [] p = has_prefix [] p
contains (c ∷ s) p = has_prefix (c ∷ s) p || contains s p

abbrev pub shift : Option ℕ → Option ℕ
shift none = none
shift (some i) = some (suc i)

-- strings.Index; none is -1
abbrev pub index : Bytes → Bytes → Option ℕ
index [] p = if has_prefix [] p then some 0 else none
index (c ∷ s) p = let rest = shift (index s p) in if has_prefix (c ∷ s) p then some 0 else rest

abbrev pub onto_first : ℕ → List Bytes → List Bytes
onto_first c [] = (c ∷ []) ∷ []
onto_first c (s ∷ ss) = (c ∷ s) ∷ ss

-- strings.Split by one byte
abbrev pub split_on : ℕ → Bytes → List Bytes
split_on b [] = [] ∷ []
split_on b (c ∷ s) = let rest = split_on b s in if c == b then [] ∷ rest else onto_first c rest

-- strings.Join by one byte
abbrev pub join : ℕ → List Bytes → Bytes
join b [] = []
join b (s ∷ []) = s
join b (s ∷ t ∷ ts) = s ++ (b ∷ join b (t ∷ ts))

-- unicode.IsSpace, of the ASCII bytes
abbrev pub is_space : ℕ → Bool
is_space c = (leb 9 c && leb c 13) || c == 32

abbrev pub trim_left : (ℕ → Bool) → Bytes → Bytes
trim_left p [] = []
trim_left p (c ∷ s) = let rest = trim_left p s in if p c then rest else c ∷ s

abbrev pub keep_byte : (ℕ → Bool) → ℕ → Bytes → Bytes
keep_byte p c [] = if p c then [] else c ∷ []
keep_byte p c (d ∷ s) = c ∷ d ∷ s

-- strings.TrimRight by a class of bytes
abbrev pub trim_right : (ℕ → Bool) → Bytes → Bytes
trim_right p [] = []
trim_right p (c ∷ s) = keep_byte p c (trim_right p s)

-- strings.TrimSpace
abbrev pub trim_space : Bytes → Bytes
trim_space s = trim_right is_space (trim_left is_space s)

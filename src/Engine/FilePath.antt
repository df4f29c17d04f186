-- ===== src/Engine/FilePath.antt =====
-- What the engine uses of the package path/filepath, on a system whose separator is the slash.
use shipmates_oss.Prelude.{
  Bool, true, false, not, ◌&&◌, ◌||◌, List, [], ◌∷◌, ◌++◌, ◌==◌, if◌then◌else◌, length,
}
use mathlib.Core.List.{reverse}
use shipmates_oss.Prelude.Bytes.{Bytes, bytes_eq, codes, has_prefix, split_on, join}

abbrev dot : Bytes
dot = codes "."

abbrev pub dot_dot : Bytes
dot_dot = codes ".."

abbrev is_empty : Bytes → Bool
is_empty s = length s == 0

-- One element of the path, onto the elements before it, the last first.
abbrev push_element : Bool → Bytes → List Bytes → List Bytes
push_element rooted e [] =
    if is_empty e || bytes_eq e dot then [] else if bytes_eq e dot_dot && rooted then [] else e ∷ []
push_element rooted e (last ∷ before) =
    if is_empty e || bytes_eq e dot
    then last ∷ before
    else if bytes_eq e dot_dot && not (bytes_eq last dot_dot)
    then before
    else e ∷ last ∷ before

abbrev elements : Bool → List Bytes → List Bytes → List Bytes
elements rooted done [] = done
elements rooted done (e ∷ es) = elements rooted (push_element rooted e done) es

abbrev spell : Bool → List Bytes → Bytes
spell true es = b'/' ∷ join b'/' es
spell false [] = dot
spell false (e ∷ es) = join b'/' (e ∷ es)

-- filepath.Clean
unfoldable pub clean : Bytes → Bytes
clean path =
    let rooted = has_prefix path (b'/' ∷ []) in
    spell rooted (reverse (elements rooted [] (split_on b'/' path)))

-- filepath.Join of two elements
unfoldable pub join_path : Bytes → Bytes → Bytes
unfolding clean
join_path a b =
    if is_empty a
    then (if is_empty b then [] else clean b)
    else if is_empty b
    then clean a
    else clean (a ++ (b'/' ∷ b))

-- path[:i+1] for the last slash at i
abbrev up_to_slash : Bytes → Bytes
up_to_slash [] = []
up_to_slash (c ∷ s) =
    let rest = up_to_slash s in if (c == b'/') || not (is_empty rest) then c ∷ rest else []

-- filepath.Dir
unfoldable pub dir : Bytes → Bytes
unfolding clean
dir path = clean (up_to_slash path)

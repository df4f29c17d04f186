-- ===== src/Delegation/Locks/Paths.antt =====
-- hasPathTraversal (bot/delegation/locks.go), over the code points of a path; the characters that it
-- looks for are ASCII, so it reads the same over the bytes.
use Prim.Native.String.{String}
use shipmates_oss.Prelude.{
  ℕ, Bool, true, false, ◌&&◌, ◌||◌, List, [], ◌∷◌, map, ◌==◌, if◌then◌else◌, exists,
}
use shipmates_oss.Prelude.Bytes.{Bytes, codes, has_prefix, contains, split_on}

-- strings.Split(s, "/")
abbrev pub split_slash : Bytes → List Bytes
split_slash = split_on b'/'

-- strings.ReplaceAll(path, "\\", "/")
abbrev pub normalize : List ℕ → List ℕ
normalize = map (λ c. if c == b'\\' then b'/' else c)

abbrev pub is_dot_dot : List ℕ → Bool
is_dot_dot (a ∷ b ∷ []) = a == b'.' && b == b'.'
is_dot_dot _ = false

unfoldable pub traverses : List ℕ → Bool
traverses normalized =
    if contains normalized (0 ∷ [])
    then true
    else if has_prefix normalized (b'/' ∷ [])
    then true
    else if has_prefix normalized (b'.' ∷ b'.' ∷ b'/' ∷ [])
        || contains normalized (b'/' ∷ b'.' ∷ b'.' ∷ b'/' ∷ [])
    then true
    else exists is_dot_dot (split_slash normalized)

unfoldable pub has_path_traversal : String → Bool
unfolding traverses
has_path_traversal path = traverses (normalize (codes path))

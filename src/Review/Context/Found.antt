-- ===== src/Review/Context/Found.antt =====
-- LineToPosition (pr-review/review/parser.go) against the lines of the hunks.
use shipmates_oss.Prelude.{
  ℕ, ◌≡◌, refl, inl, inr, ◌⊎◌, Bool, true, false, ◌&&◌, Option, none, some, List, [], ◌∷◌, exists,
  ◌==◌, ==_iff, &&→both, if◌then◌else◌, Bool-cases, All, In,
}
use shipmates_oss.Prelude.Bytes.{Bytes, bytes_eq}
use shipmates_oss.Review.Diff.{DiffLine, DiffFile, is_kept, hunk_lines}
use shipmates_oss.Review.Context.{line_in_lines, position_or, line_to_position}

abbrev pub is_line : ℕ → DiffLine → Bool
is_line n l = l.new_line == n && is_kept l.line_type

abbrev pub has_line : Bytes → ℕ → DiffFile → Bool
has_line path n f = bytes_eq f.path path && exists (is_line n) (hunk_lines f.hunks)

-- This position is one of a line that the new file has under this number.
abbrev pub IsPlace : ℕ → ℕ → List DiffLine → Type 0
IsPlace n p ls =
    (l : DiffLine) × In l ls × (l.new_line ≡ n) × (is_kept l.line_type ≡ true) × (l.position ≡ p)

abbrev pub IsPlaceIn : List DiffFile → Bytes → ℕ → ℕ → Type 0
IsPlaceIn fs path n p =
    (f : DiffFile) × In f fs × (bytes_eq f.path path ≡ true) × IsPlace n p (hunk_lines f.hunks)

-- What a search in lines finds.
abbrev IsFound : ℕ → List DiffLine → Option ℕ → Type 0
IsFound n ls none = exists (is_line n) ls ≡ false
IsFound n ls (some p) = IsPlace n p ls

later-IsFound :
    (n : ℕ) (l : DiffLine) (ls : List DiffLine) (o : Option ℕ)
    → is_line n l ≡ false
    → IsFound n ls o
    → IsFound n (l ∷ ls) o
later-IsFound n l ls none e h = rw e h
later-IsFound n l ls (some p) e (k, m, a, b, c) = (k, inr m, a, b, c)

line_in_lines-IsFound : (n : ℕ) (ls : List DiffLine) → IsFound n ls (line_in_lines n ls)
line_in_lines-IsFound n [] = refl
line_in_lines-IsFound n (l ∷ ls) = elim (Bool-cases (is_line n l)) [
  | inl e ↦
      let (a, b) = &&→both (l.new_line == n) (is_kept l.line_type) e in
      rw e (l, inl refl, (==_iff l.new_line n).0 a, b, refl)
  | inr e ↦ rw e (later-IsFound n l ls (line_in_lines n ls) e (line_in_lines-IsFound n ls))
]

abbrev pub IsAnswer : List DiffFile → Bytes → ℕ → ℕ → Type 0
IsAnswer fs path n p = ((p ≡ 0) × All (λ f. has_line path n f ≡ false) fs) ⊎ IsPlaceIn fs path n p

later-IsAnswer :
    (fs : List DiffFile) (path : Bytes) (n p : ℕ) (f : DiffFile)
    → has_line path n f ≡ false
    → IsAnswer fs path n p
    → IsAnswer (f ∷ fs) path n p
later-IsAnswer fs path n p f e (inl (z, a)) = inl (z, (e, a))
later-IsAnswer fs path n p f e (inr (g, m, a, r)) = inr (g, inr m, a, r)

file-IsAnswer :
    (fs : List DiffFile) (path : Bytes) (n p : ℕ) (f : DiffFile) (o : Option ℕ)
    → bytes_eq f.path path ≡ true
    → IsFound n (hunk_lines f.hunks) o
    → IsAnswer fs path n p
    → IsAnswer (f ∷ fs) path n (position_or o p)
file-IsAnswer fs path n p f none e h k = later-IsAnswer fs path n p f (rw (e, h) refl) k
file-IsAnswer fs path n p f (some q) e h k = inr (f, inl refl, e, h)

-- The answer by whether the file has the path.
chosen-IsAnswer :
    (fs : List DiffFile) (path : Bytes) (n p : ℕ) (f : DiffFile) (b : Bool)
    → bytes_eq f.path path ≡ b
    → IsAnswer fs path n p
    → IsAnswer
        (f ∷ fs)
        path
        n
        (if b then position_or (line_in_lines n (hunk_lines f.hunks)) p else p)
chosen-IsAnswer fs path n p f true e k =
    file-IsAnswer fs path n p f (line_in_lines n (hunk_lines f.hunks)) e
      (line_in_lines-IsFound n (hunk_lines f.hunks)) k
chosen-IsAnswer fs path n p f false e k = later-IsAnswer fs path n p f (rw e refl) k

-- LineToPosition gives the position of a line that a hunk of a file with this path has under this number and that is
-- not removed, or 0 where no file with this path has one.
pub line_to_position-IsAnswer :
    (fs : List DiffFile) (path : Bytes) (n : ℕ) → IsAnswer fs path n (line_to_position fs path n)
unfolding line_to_position
line_to_position-IsAnswer [] path n = inl (refl, tt)
line_to_position-IsAnswer (f ∷ fs) path n =
    chosen-IsAnswer fs path n (line_to_position fs path n) f (bytes_eq f.path path) refl
      (line_to_position-IsAnswer fs path n)

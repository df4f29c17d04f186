-- ===== src/Tests/Review.antt =====
-- A diff with two hunks.
use shipmates_oss.Prelude.{◌≡◌, refl, List, [], ◌∷◌, ◌++◌, All}
use shipmates_oss.Prelude.Bytes.{Bytes, codes, join}
use shipmates_oss.Review.Diff.{
  new_diff_file, header, add_hunk, parse_line_num, parse_hunk_header, collect_hunk_lines,
  split_diff_by_file, parse_diff_file, parse_diff,
}
use shipmates_oss.Review.Diff.Header.{GitHeader, header_text}
use shipmates_oss.Review.Diff.Numbers.{IsNumberedIn, parse_diff-IsNumbered}
use shipmates_oss.Review.Context.{line_to_position, build_file_content}
use shipmates_oss.Review.Context.Printed.{body, printed, build_file_content-collect_hunk_lines}
use shipmates_oss.Review.Context.Found.{IsAnswer, line_to_position-IsAnswer}

abbrev hunk_body : List Bytes
hunk_body = codes " a" ∷ codes "-b" ∷ codes "+c" ∷ codes "@@ -9 +9 @@" ∷ codes "+d" ∷ []

abbrev one_file : Bytes
one_file = join 10 (
    codes "diff --git a/x b/x"
    ∷ codes "--- a/x"
    ∷ codes "+++ b/x"
    ∷ codes "@@ -1,2 +1,2 @@"
    ∷ hunk_body)

added_found : line_to_position (parse_diff one_file) (codes "x") 2 ≡ 3
unfolding line_to_position parse_diff parse_diff_file split_diff_by_file parse_hunk_header
    parse_line_num collect_hunk_lines
added_found = refl

-- The second hunk: its header is not counted.
second_hunk_found : line_to_position (parse_diff one_file) (codes "x") 9 ≡ 4
unfolding line_to_position parse_diff parse_diff_file split_diff_by_file parse_hunk_header
    parse_line_num collect_hunk_lines
second_hunk_found = refl

-- @@ -3,2 +14,6 @@ f
abbrev one_header : GitHeader
one_header = record {
  old = codes "3,2";
  start = codes "14";
  count = codes "6";
  rest = codes " f";
  old_digits = (refl, (refl, (refl, tt)));
  start_digits = (refl, (refl, tt));
  count_digits = (refl, tt);
}

header_read : parse_hunk_header (codes "@@ -3,2 +14,6 @@ f") ≡ header 14 6
unfolding parse_hunk_header parse_line_num
header_read = refl

-- The marker is numbered too, so the only line that the new file has is its second.
abbrev with_marker : Bytes
with_marker = join 10 (
    codes "+++ b/x"
    ∷ codes "@@ -1 +1 @@"
    ∷ codes "-old"
    ∷ codes "\\ No newline at end of file"
    ∷ codes "+new"
    ∷ [])

marker_counts : line_to_position (parse_diff with_marker) (codes "x") 2 ≡ 3
unfolding line_to_position parse_diff parse_diff_file split_diff_by_file parse_hunk_header
    parse_line_num collect_hunk_lines
marker_counts = refl

parse_diff-IsNumbered_example :
    All (IsNumberedIn one_file) (parse_diff one_file)
    × (parse_hunk_header (header_text one_header)
        ≡ header (parse_line_num (codes "14")) (parse_line_num (codes "6")))
parse_diff-IsNumbered_example = parse_diff-IsNumbered one_file one_header

line_to_position-IsAnswer_example :
    IsAnswer
      (parse_diff one_file)
      (codes "x")
      2
      (line_to_position (parse_diff one_file) (codes "x") 2)
line_to_position-IsAnswer_example = line_to_position-IsAnswer (parse_diff one_file) (codes "x") 2

build_file_content-collect_hunk_lines_example :
    build_file_content (add_hunk (header 1 2) (collect_hunk_lines hunk_body 0 1).0 new_diff_file)
    ≡ build_file_content new_diff_file ++ printed (body hunk_body)
build_file_content-collect_hunk_lines_example =
    build_file_content-collect_hunk_lines hunk_body 0 (header 1 2) new_diff_file
      (refl, (refl, (refl, tt)))

-- ===== src/Review.antt =====
-- pr-review/review/parser.go: diffs.
pub mod Diff
pub mod Context

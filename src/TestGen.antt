-- ===== src/TestGen.antt =====
-- test-gen/testgen/coverage.go: reports of coverage.
pub mod Atoi
pub mod Ranges
pub mod Scan
pub mod Lcov

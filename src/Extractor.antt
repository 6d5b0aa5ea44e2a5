-- ===== src/Extractor.antt =====
-- internal/extractor: the platforms' contests. The fetching of contest.go, the keys of the contests, and
-- the parsers of the platforms' answers, with what holds of every contest that they give.
pub mod Atcoder
pub mod Collected
pub mod Contests
pub mod Fetch
pub mod Json
pub mod Named

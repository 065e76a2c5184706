-- ===== src/Index.antt =====
-- index/index.go and index/types.go: the index manager, which keeps ids by their tags in lists and
-- in trees of digits.
pub mod Tree
pub mod Cache
pub mod Inverted
pub mod Manager
pub mod Query

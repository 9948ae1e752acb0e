-- ===== src/Sort.antt =====
-- The sorting programs under c/old_practice/practice_srcs/sort_algo.
pub mod Spec
pub mod Insertion
pub mod Selection
pub mod Bubble
pub mod Shell
pub mod Quick
pub mod Agree
mod Tests

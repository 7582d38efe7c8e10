-- ===== src/Query.antt =====
-- src/query: what a query selects.
pub mod Rows
pub mod Needle
pub mod Rule
pub mod Group
pub mod Lookup
pub mod Input

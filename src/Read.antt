-- ===== src/Read.antt =====
-- src/read: which bytes of a device are read, and how they become the logical file.
pub mod Request
pub mod Plan
pub mod Logical
pub mod Results

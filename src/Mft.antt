-- ===== src/Mft.antt =====
-- src/mft: the records of the master file table.
pub mod Fixup
pub mod RunList
pub mod Reference
pub mod Record

-- ===== src/Tests.antt =====
-- Runs of the model at concrete inputs: the theorems applied, and results compared.
mod Query
mod Read
mod Mft
mod RunList
mod Record
mod Input
mod Live
mod Lookup
mod Results

-- ===== src/Tests.antt =====
-- Tests of the definitions, and the theorems at concrete inputs.
mod Trails
mod Terms
mod Sums
mod Occurrences
mod Tables
mod Clauses
mod Codes
mod Records
mod Lists
mod Solutions
mod Unification

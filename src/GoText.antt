-- ===== src/GoText.antt =====
-- The functions of Go's strings and path packages that the program uses, on texts as bytes.
pub mod Prefixes
pub mod Fields
pub mod Paths
pub mod Regex
pub mod Split

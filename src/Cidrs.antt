-- ===== src/Cidrs.antt =====
-- pkg/net/cidrs: mappers from addresses to the values of the prefixes that contain them.
pub mod Words
pub mod Trie
pub mod TrieMap
pub mod BruteForce
pub mod Mapping
pub mod Shortest
pub mod Lookup

-- ===== src/Dns.antt =====
-- DNS filtering (aegorx/network/dns_filter.py): domains as texts, the trie over reversed labels, and the
-- filter with its two files. The children hold the text functions (`Domain`), the trie (`Trie`), and
-- what the theorems show.
--
-- A domain is a list of code points. `lower` and `strip` are Python's on ASCII characters. `Store` is
-- the content of a block list's file as JSON gives it; writing a file always succeeds. The lock makes
-- each method one step. Sets are written to files in the order of the model's list, not sorted.
pub mod Domain
pub mod Trie
pub mod Walk
pub mod Filter
pub mod Agree
pub mod Files
mod Tests

-- ===== src/Fetch.antt =====
-- vk_fetch_s.h and vk_fetch.c: the enumerations of HTTP and their tables, without the lists of rules
-- that a row has beside, which nothing reads.
mod Methods
mod Headers
pub mod Request
pub mod Body
pub mod Tables
unfoldable pub use Methods.*
unfoldable pub use Headers.*

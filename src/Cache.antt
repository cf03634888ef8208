-- ===== src/Cache.antt =====
-- internal/cache/disklru.go: the image cache on disk. Rows of cache_meta and files are tables; which
-- statements and system calls fail is an argument of each operation.
pub mod Store
pub mod Evict
pub mod Open
pub mod Opening
pub mod Accounts
pub mod Rounds
pub mod Lru
pub mod Ends
pub mod Lookup
pub mod Life
pub mod Paths
pub mod Races
pub mod Files
pub mod Memory
mod Examples

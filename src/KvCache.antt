-- ===== src/KvCache.antt =====
-- include/engine/kv_cache.h and src/kv_cache/block_allocator.cpp: the paged KV cache's bookkeeping.
-- Defs and Alloc hold the state and the operations, Accounting the accounting of the pool, and the others
-- its proofs: of steps on one block, of loops over a table, and of the operations.
mod Defs
mod Alloc
mod Accounting
mod Blocks
mod Tables
mod Share
mod Commit
mod Laws
mod Owned
mod Empty
mod Usage
mod History
mod Tests
unfoldable pub use Defs.*
unfoldable pub use Alloc.*
unfoldable pub use Accounting.*
pub use Blocks.*
pub use Share.*
pub use Laws.*
pub use Empty.*
pub use Owned.*
unfoldable pub use Usage.*
unfoldable pub use History.*

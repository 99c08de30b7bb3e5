-- ===== src/Computed.antt =====
-- Stored computed fields: what each depends on (src/core/orm/fields/computed/dependency.py), and
-- the context that refreshes what a unit of work made stale (src/core/orm/fields/computed/context.py).
pub mod Bindings
pub mod Depths
pub mod Refresh
pub mod UnitOfWork
mod Tests

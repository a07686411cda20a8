-- ===== src/Core/TextStore.antt =====
-- packages/core/src/text-store.ts: the lock of a store and the lines of its files.
pub mod Lock
pub mod Holders
pub mod Stale
pub mod Places
pub mod Exclusion
pub mod Progress
pub mod Lines
pub mod RoundTrip
mod Tests

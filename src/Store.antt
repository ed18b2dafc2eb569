-- ===== src/Store.antt =====
-- packages/web/src/store: the client's state, its scope and its reducer.
pub mod State
pub mod Scope
pub mod Messages
pub mod Fold
pub mod Moved
pub mod Reducer
mod Tests

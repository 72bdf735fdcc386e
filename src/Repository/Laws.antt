-- ===== src/Repository/Laws.antt =====
-- What the repository of records keeps and promises.
pub mod Queried
pub mod Steps
pub mod Removal
pub mod Returns
pub mod Parents
pub mod Stages
pub mod ReadBack
pub mod Stored
pub mod Atomic

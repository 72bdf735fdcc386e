-- ===== src/Cdid/Laws.antt =====
-- Ids survive printing and parsing, and their time survives to the millisecond.
pub mod Coding
pub mod Times

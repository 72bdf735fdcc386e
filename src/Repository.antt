-- ===== src/Repository.antt =====
-- internal/infra/repository/record.go.
pub mod Parents
pub mod Create
pub mod Read
pub mod Remove
pub mod Query
pub mod Associate
pub mod Laws
mod Tests
pub mod QueryTests

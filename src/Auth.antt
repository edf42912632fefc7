-- ===== src/Auth.antt =====
-- Authentication of the API (apps/api/src/auth).
pub mod Slug
pub mod SlugLaws
pub mod Tokens
pub mod Base64Laws
pub mod TokenLaws
pub mod Sessions
pub mod Accounts
pub mod SessionLaws
pub mod SessionSet
pub mod Access
pub mod AccessLaws
mod Tests

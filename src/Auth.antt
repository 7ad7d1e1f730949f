-- ===== src/Auth.antt =====
-- Authentication and authorization (src/auth/).
pub mod Role
pub mod Guard
pub mod Claims
pub mod Token
pub mod Credentials

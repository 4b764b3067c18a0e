-- ===== src/Authz.antt =====
-- app/core/authz.py and app/services/authz/policy.py: the permissions that roles have by default, what
-- the stored policies add or replace, and which policies are refused.
pub mod Permissions
pub mod Service
pub mod Heights
pub mod Closure
pub mod Separation
pub mod Requests
mod Tests
pub mod Columns
pub mod Masked

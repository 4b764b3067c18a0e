-- ===== src/Products.antt =====
-- app/services/products/service.py: the products of a tenant and their life cycle.
pub mod Service
pub mod Requests
pub mod Configured
pub mod Active
mod Tests

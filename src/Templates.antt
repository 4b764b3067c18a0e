-- ===== src/Templates.antt =====
-- app/services/tenant_templates/service.py: the review and the publication of the versions of a
-- template.
pub mod Service
pub mod Publish
pub mod Requests
pub mod Review
pub mod Published
mod Tests
pub mod Config
pub mod Merge

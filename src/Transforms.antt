-- ===== src/Transforms.antt =====
-- app/services/transforms/rule_service.py: the life cycle of a rule set, which maps the answers of
-- one version of a template to another.
pub mod Service
pub mod Rules
pub mod Requests
pub mod Changes
pub mod Life
pub mod Contents
pub mod Pairs
mod Tests

-- ===== src/Submissions.antt =====
-- app/services/submissions/service.py: who may do what to a submission, its workflow and its
-- audit trail. The handlers are in Service; each proof stands in the module of what it proves.
pub mod Access
pub mod Transitions
pub mod Service
pub mod Outcomes
pub mod Submitting
pub mod Requests
pub mod Audit
pub mod Keys
pub mod FourEyes
pub mod Review
pub mod Frozen
pub mod Ownership
pub mod Validation
mod Tests

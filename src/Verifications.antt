-- ===== src/Verifications.antt =====
-- app/services/verifications/service.py: the verification of a submission, a run of configured steps
-- that depend on one another, and its decision.
pub mod Values
pub mod Steps
pub mod Decision
pub mod Advance
pub mod Actions
pub mod Flow
pub mod Service
pub mod Moves
pub mod Settling
pub mod Rounds
pub mod Quiet
pub mod Outcome
pub mod Progress
pub mod Unstuck
pub mod Attempts
pub mod Bounded
pub mod Created
pub mod Reading
pub mod Kept
pub mod Writes
pub mod Aside
pub mod Requests
pub mod Untouched
mod Samples
mod Tests
pub mod Matching
pub mod Answered

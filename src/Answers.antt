-- ===== src/Answers.antt =====
-- app/services/submissions/answer_validator.py: the questions of a version, their visibility, and
-- the checks of the answers. What the checks mean is in Meaning, what a whole form's
-- validation reports in Report, and what that of a list of answers reports in Listed.
mod Questions
mod Checks
pub mod Validate
pub mod Meaning
pub mod Report
pub mod Listed
pub mod Samples
mod Tests
unfoldable pub use Questions.{load_questions, all_questions, answer_of, is_visible}
pub use Checks.{Platform, Message}
unfoldable pub use Checks.{is_blank, check_text, check_value, validate_question}

-- ===== src/Validation.antt =====
-- validation/validator.py: five stages, cheapest first, stop at the first failure.
-- `Result` has the outcome, `Names` what a query names, `ReadOnly`, `Identifiers` and `Explain`
-- the stages 3, 4 and 5, `Static` the stages 1 to 4 and `Validator` all of them.
pub mod Result
pub mod Decides
pub mod Names
pub mod ReadOnly
pub mod Identifiers
pub mod Containment
pub mod Resolution
pub mod Static
pub mod Acceptance
pub mod Explain
pub mod Validator
pub mod Planning

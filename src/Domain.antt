-- ===== src/Domain.antt =====
-- src/reclaimos/domain/models.py and decline_codes.py: the vocabulary of the program.
-- An aware datetime is the instant it stands for, in microseconds since a fixed epoch: that is
-- how Python compares aware datetimes. A float is an element of the interface of Domain/Real.
pub mod Declines
pub mod Real
pub mod Models
pub use Declines.{DeclineClass}
pub use Models.{Method, ActionType, TerminalReason, Mandate, PaymentAttempt, SubscriptionRecord}

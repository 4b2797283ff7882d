-- ===== src/Store/Idempotency.antt =====
-- src/reclaimos/store/idempotency.py: the protocol of an idempotency store, and its two
-- backends. Each method is one atomic step: the claim is a single INSERT, or runs under the lock.
pub mod Key
pub mod Backends
pub mod Laws
pub mod History
use reclaim_os.Prelude.{ℕ, Text, codes, ◌++◌, Bool, Option}
use reclaim_os.Prelude.Decimal.{decimal}
use reclaim_os.Domain.Models.{ActionType, action_value}
use reclaim_os.Store.Canonical.{Value}

-- f"{subscription_id}:{attempt_no}:{action.value}"
unfoldable pub idempotency_key : Text → ℕ → ActionType → Text
idempotency_key subscription_id attempt_no action =
    subscription_id ++ (codes ":" ++ (decimal attempt_no ++ (codes ":" ++ action_value action)))

-- `Claim`; it is completed once it has a result.
pub record Claim : Type 0 where
  pub key : Text
  pub claimed_at : Text
  pub result : Option Value

-- How `record_result` ends: it returns, raises `ResultAlreadyRecorded` for either reason, or
-- raises `NonCanonicalPayload`.
pub data Recorded : Type 0 where
  recorded no_claim already_recorded not_canonical : Recorded

-- `IdempotencyStore`, over the state `S` of a backend. A text before a key is the clock.
pub record Backend (S : Type 0) : Type 0 where
  pub claim : Text → Text → S → Bool × S
  pub record_result : Text → Value → S → Recorded × S
  pub get : Text → S → Option Claim
  pub count : S → ℕ

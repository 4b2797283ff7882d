-- ===== src/Policy/Executor.antt =====
-- src/reclaimos/policy/executor.py: claim the key, call the gateway, record the result.
-- The idempotency store and the gateway are interfaces; `now` is the clock, as text.
pub mod Results
pub mod Once
pub mod Replay
use reclaim_os.Prelude.{
  ℕ, Text, codes, Bool, true, false, not, Option, none, some, text_eq, if◌then◌else◌,
}
use reclaim_os.Prelude.Int.{ℤ, pos, negsuc}
use reclaim_os.Domain.Models.{ActionType, retry_charge, moves_money, SubscriptionRecord}
use reclaim_os.Store.Canonical.{Value, Fields, object, field, end, str, null}
use reclaim_os.Store.Idempotency.{
  Backend, Claim, Recorded, recorded, no_claim, already_recorded, not_canonical, idempotency_key,
}
use reclaim_os.Policy.Mandate.{Signing, ChargeRequest, verify}
use reclaim_os.Policy.Gateway.{Gateway, GatewayResult}
use Results.{StoredResult, stored_value, read_result, contact_value}

pub record ExecutionReceipt : Type 0 where
  pub subscription_id : Text
  pub action : ActionType
  pub idempotency_key : Text
  pub executed : Bool
  pub replayed : Bool
  pub succeeded : Bool
  pub amount_paise : ℤ
  pub reference : Option Text
  pub detail : Text

-- How a call ends: a receipt, or an exception by its source.
pub data Execution : Type 0 where
  receipt : ExecutionReceipt → Execution
  mandate_violation : Execution
  gateway_error : Execution
  result_refused : Recorded → Execution
  unreadable_result : Execution

-- The receipt of a lost claim, from what the key holds.
unfoldable pub replay_receipt : ChargeRequest → Option Claim → Execution
unfolding read_result
replay_receipt request prior = elim (read_result prior) [
  | none ↦ unreadable_result
  | some old ↦ receipt (record {
    subscription_id = request.subscription_id;
    action = retry_charge;
    idempotency_key = request.idempotency_key;
    executed = false;
    replayed = true;
    succeeded = old.succeeded;
    amount_paise = old.amount_paise;
    reference = old.reference;
    detail = codes "already executed; returning the recorded result";
  })
]

-- The receipt of a charge that went to the gateway.
unfoldable pub charge_receipt : ChargeRequest → GatewayResult → ExecutionReceipt
charge_receipt request result = record {
  subscription_id = request.subscription_id;
  action = retry_charge;
  idempotency_key = request.idempotency_key;
  executed = true;
  replayed = false;
  succeeded = result.succeeded;
  amount_paise = if result.succeeded then request.amount_paise else pos 0;
  reference = result.reference;
  detail = result.detail;
}

-- `record_result` returns, or its exception leaves the call.
unfoldable pub after_record : ExecutionReceipt → Recorded → Execution
after_record r recorded = receipt r
after_record r no_claim = result_refused no_claim
after_record r already_recorded = result_refused already_recorded
after_record r not_canonical = result_refused not_canonical

module _ {S G : Type 0} (b : Backend S) (gateway : Gateway G) (now : Text) where
  -- The branch that holds the claim.
  unfoldable pub charge_claimed : ChargeRequest → S × G → Execution × S × G
  unfolding charge_receipt after_record
  charge_claimed request (s, g) =
      let (answer, g') = gateway.charge request g in
      elim answer [
        | none ↦ (gateway_error, s, g')
        | some result ↦
            let r = charge_receipt request result in
            let stored = stored_value result.succeeded r.amount_paise result.reference now in
            let (outcome, s') = b.record_result request.idempotency_key stored s in
            (after_record r outcome, s', g')
      ]

  unfoldable pub execute_charge : Signing → ChargeRequest → S × G → Execution × S × G
  unfolding charge_claimed replay_receipt
  execute_charge signing request (s, g) =
      if not (verify signing request.token)
      then (mandate_violation, s, g)
      else let (won, s') = b.claim now request.idempotency_key s in
        if won
        then charge_claimed request (s', g)
        else (replay_receipt request (b.get request.idempotency_key s'), s', g)

  unfoldable pub contact_receipt :
      SubscriptionRecord → ActionType → Text → GatewayResult → ExecutionReceipt
  contact_receipt r action key result = record {
    subscription_id = r.subscription_id;
    action = action;
    idempotency_key = key;
    executed = true;
    replayed = false;
    succeeded = result.succeeded;
    amount_paise = pos 0;
    reference = result.reference;
    detail = result.detail;
  }

  unfoldable pub contact_claimed :
      SubscriptionRecord → ActionType → Text → S × G → Execution × S × G
  unfolding contact_receipt after_record
  contact_claimed r action key (s, g) =
      let (answer, g') = gateway.contact r action g in
      elim answer [
        | none ↦ (gateway_error, s, g')
        | some result ↦
            let stored = contact_value result.succeeded result.reference now in
            let (outcome, s') = b.record_result key stored s in
            (after_record (contact_receipt r action key result) outcome, s', g')
      ]

  unfoldable pub execute_contact : SubscriptionRecord → ActionType → ℕ → S × G → Execution × S × G
  unfolding contact_claimed
  execute_contact r action attempt_no (s, g) =
      if moves_money action
      then (mandate_violation, s, g)
      else let key = idempotency_key r.subscription_id attempt_no action in
        let (won, s') = b.claim now key s in
        if won then contact_claimed r action key (s', g) else (
          receipt (record {
            subscription_id = r.subscription_id;
            action = action;
            idempotency_key = key;
            executed = false;
            replayed = true;
            succeeded = false;
            amount_paise = pos 0;
            reference = none;
            detail = codes "already sent; not contacting the customer again";
          }),
          s',
          g,
        )

-- ===== src/Domain/Models.antt =====
-- src/reclaimos/domain/models.py: records, actions and the mandate's own test.
use reclaim_os.Prelude.{ℕ, Text, codes, Bool, true, false, ◌&&◌, Option, leb, text_eq}
use reclaim_os.Prelude.Int.{ℤ, pos, leb_ℤ}

pub data Method : Type 0 where
  upi_autopay card emandate : Method

unfoldable pub method_value : Method → Text
method_value upi_autopay = codes "upi_autopay"
method_value card = codes "card"
method_value emandate = codes "emandate"

-- `m is n`
unfoldable pub same_method : Method → Method → Bool
unfolding method_value text_eq
same_method m n = text_eq (method_value m) (method_value n)

pub data ActionType : Type 0 where
  retry_charge send_payment_link request_card_update escalate_human stop : ActionType

unfoldable pub action_value : ActionType → Text
action_value retry_charge = codes "retry_charge"
action_value send_payment_link = codes "send_payment_link"
action_value request_card_update = codes "request_card_update"
action_value escalate_human = codes "escalate_human"
action_value stop = codes "stop"

abbrev pub moves_money : ActionType → Bool
moves_money retry_charge = true
moves_money send_payment_link = false
moves_money request_card_update = false
moves_money escalate_human = false
moves_money stop = false

pub data TerminalReason : Type 0 where
  recovered : TerminalReason
  policy_stopped : TerminalReason
  hard_decline_stop : TerminalReason
  attempt_cap_reached : TerminalReason
  mandate_expired : TerminalReason
  mandate_violation_blocked : TerminalReason
  escalated_to_human : TerminalReason
  no_action_taken : TerminalReason
  recovery_window_closed : TerminalReason

-- `max_amount_paise` is `Field(gt=0)`: a natural number here.
pub record Mandate : Type 0 where
  pub max_amount_paise : ℕ
  pub expiry : ℕ
  pub allowed_method : Method
  pub reason_code : Text

-- `Mandate.permits`
unfoldable pub permits : Mandate → ℤ → Method → ℕ → Bool
unfolding same_method
permits m amount_paise method at =
    leb_ℤ amount_paise (pos m.max_amount_paise)
    && (same_method method m.allowed_method && leb at m.expiry)

pub record PaymentAttempt : Type 0 where
  pub attempt_no : ℕ
  pub occurred_at : ℕ
  pub amount_paise : ℕ
  pub succeeded : Bool
  pub action : ActionType
  pub error_code : Option Text
  pub error_source : Option Text
  pub error_step : Option Text
  pub error_reason : Option Text
  pub error_description : Option Text

pub record SubscriptionRecord : Type 0 where
  pub subscription_id : Text
  pub customer_id : Text
  pub plan_id : Text
  pub method : Method
  pub plan_amount_paise : ℕ
  pub currency : Text
  pub billing_cycle_day : ℕ
  pub charge_at : ℕ
  pub customer_tenure_months : ℕ
  pub prior_success_count : ℕ
  pub prior_failure_count : ℕ
  pub mandate : Mandate
  pub failed_attempt : PaymentAttempt

-- `Decision`, over the type of floats.
pub record Decision (Real : Type 0) : Type 0 where
  pub subscription_id : Text
  pub attempt_no : ℕ
  pub action : ActionType
  pub delay_hours : Real
  pub rule_id : Text
  pub propensity : Real
  pub predicted_recoverable : Bool
  pub rationale : Text
  pub stop_reason : Option TerminalReason

pub record AttemptResult (Real : Type 0) : Type 0 where
  pub succeeded : Bool
  pub amount_paise : ℕ
  pub occurred_at : ℕ
  pub probability : Real
  pub draw : Real

-- ===== src/Policy/Config.antt =====
-- src/reclaimos/policy/config.py (the knobs of `AgentConfig`), policy/timing.py and the
-- `LoopState` of eval/policy.py.
use reclaim_os.Prelude.{ℕ, ◌+◌, ◌-◌, Bool, ◌==◌, List, if◌then◌else◌}
use reclaim_os.Domain.Models.{SubscriptionRecord, Decision, AttemptResult}
use reclaim_os.Domain.Real.{Reals}

pub record AgentConfig (Real : Type 0) : Type 0 where
  pub retry_min_propensity : Real
  pub max_charge_attempts : ℕ
  pub max_contact_actions : ℕ
  pub soft_retry_delays_hours : List Real
  pub technical_retry_delay_hours : Real
  pub limit_exceeded_delay_hours : Real
  pub payday_alignment : Bool
  pub payday_buffer_hours : Real
  pub payday_max_wait_hours : Real
  pub contact_delay_hours : Real
  pub contact_on_hard_decline : Bool
  pub contact_on_expiry : Bool
  pub ambiguity_shortens_ladder : Bool
  pub hitl_amount_threshold_paise : ℕ
  pub recovery_window_hours : Real

-- `zoneinfo` and `datetime`: the local year and month of an instant, the instant of midnight
-- IST on the first of a month, and `total_seconds` of a span of microseconds.
pub record Calendar (Real : Type 0) : Type 0 where
  pub year : ℕ → ℕ
  pub month : ℕ → ℕ
  pub day : ℕ → ℕ
  pub first_of : ℕ → ℕ → ℕ
  pub total_seconds : ℕ → Real

module _ (R : Reals) (cal : Calendar R.Real) where
  -- The boundary lies after `at`, so the span is not negative.
  unfoldable pub hours_until_month_turn : ℕ → R.Real
  hours_until_month_turn at =
      let boundary =
        if cal.month at == 12
        then cal.first_of (cal.year at + 1) 1
        else cal.first_of (cal.year at) (cal.month at + 1) in
      R.div (cal.total_seconds (boundary - at)) (R.lit 36000 1)

  unfoldable pub day_of_month : ℕ → ℕ
  day_of_month at = cal.day at

pub record LoopState (Real : Type 0) : Type 0 where
  pub current : SubscriptionRecord
  pub elapsed_hours : Real
  pub charge_attempts : ℕ
  pub contact_actions : ℕ
  pub slot : ℕ
  pub history : List (Decision Real × AttemptResult Real)

-- `LoopState.total_actions`
abbrev pub total_actions : {Real : Type 0} → LoopState Real → ℕ
total_actions st = st.charge_attempts + st.contact_actions

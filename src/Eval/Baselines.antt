-- ===== src/Eval/Baselines.antt =====
-- src/reclaimos/eval/baselines.py: the policies that the agent is compared with. They keep no
-- state of their own.
pub mod Budgets
use reclaim_os.Prelude.{
  ℕ, ◌+◌, Text, codes, ◌++◌, Bool, true, false, Option, none, some, List, length, leb, get_or,
  if◌then◌else◌,
}
use reclaim_os.Prelude.Decimal.{decimal}
use reclaim_os.Domain.Models.{
  ActionType, retry_charge, send_payment_link, stop, TerminalReason, policy_stopped,
  no_action_taken, Decision,
}
use reclaim_os.Domain.Real.{Reals}
use reclaim_os.Policy.Config.{LoopState}

module _ (R : Reals) where
  open R use {Real, lit}

  -- `DoNothingPolicy.decide`
  unfoldable pub do_nothing : LoopState Real → Decision Real
  do_nothing st = record {
    subscription_id = st.current.subscription_id;
    attempt_no = st.slot + 1;
    action = stop;
    delay_hours = lit 0 1;
    rule_id = codes "baseline.do_nothing";
    propensity = lit 0 1;
    predicted_recoverable = false;
    rationale = codes "Baseline: no recovery attempted.";
    stop_reason = some no_action_taken;
  }

  -- `_stop`
  unfoldable pub exhausted : LoopState Real → Text → TerminalReason → Decision Real
  exhausted st rule_id reason = record {
    subscription_id = st.current.subscription_id;
    attempt_no = st.slot + 1;
    action = stop;
    delay_hours = lit 0 1;
    rule_id = rule_id;
    propensity = lit 0 1;
    predicted_recoverable = true;
    rationale = codes "Baseline: attempt budget exhausted.";
    stop_reason = some reason;
  }

  -- The decision of a baseline that acts.
  abbrev blind : LoopState Real → ActionType → Real → Text → Text → Decision Real
  blind st action delay rule_id why = record {
    subscription_id = st.current.subscription_id;
    attempt_no = st.slot + 1;
    action = action;
    delay_hours = delay;
    rule_id = rule_id;
    propensity = lit 5 1;
    predicted_recoverable = true;
    rationale = why;
    stop_reason = none;
  }

  -- `RetryOncePolicy.decide`, with its field `delay_hours`
  unfoldable pub retry_once : Real → LoopState Real → Decision Real
  unfolding exhausted
  retry_once delay_hours st =
      if leb 1 st.charge_attempts
      then exhausted st (codes "baseline.retry_once.exhausted") policy_stopped
      else blind st retry_charge delay_hours (codes "baseline.retry_once")
          (codes "Baseline: retry once, no diagnosis.")

  -- `RetryThriceFixedPolicy.decide`, with its field `gaps_hours`; the index is within the list.
  unfoldable pub retry_thrice : List Real → LoopState Real → Decision Real
  unfolding exhausted
  retry_thrice gaps_hours st =
      if leb (length gaps_hours) st.charge_attempts
      then exhausted st (codes "baseline.retry_3x.exhausted") policy_stopped
      else blind st retry_charge (get_or gaps_hours st.charge_attempts (lit 0 1))
          (codes "baseline.retry_3x.attempt_" ++ decimal (st.charge_attempts + 1))
          (codes "Baseline: fixed retry ladder, no diagnosis.")

  -- `ContactOncePolicy.decide`, with its field `delay_hours`
  unfoldable pub contact_once : Real → LoopState Real → Decision Real
  unfolding exhausted
  contact_once delay_hours st =
      if leb 1 st.contact_actions
      then exhausted st (codes "baseline.contact_once.exhausted") policy_stopped
      else blind st send_payment_link delay_hours (codes "baseline.contact_once")
          (codes "Baseline: outreach only, no instrument retry.")

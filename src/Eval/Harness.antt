-- ===== src/Eval/Harness.antt =====
-- src/reclaimos/eval/harness.py (`run_record`) and eval/costs.py. The policy is a function of
-- the loop state and of a state of its own, which it may change. none is an exception: of the
-- policy, or the IndexError of `resolve`.
pub mod Accounts
pub mod Total
pub mod AgentRun
use reclaim_os.Prelude.{
  ℕ, zero, suc, ◌+◌, ◌-◌, Bool, true, false, not, Option, none, some, List, [], ◌∷◌, ◌++◌, length,
  is_empty, ltb, leb, if◌then◌else◌,
}
use reclaim_os.Prelude.Int.{pos}
use reclaim_os.Domain.Declines.{is_hard}
use reclaim_os.Domain.Models.{
  SubscriptionRecord, ActionType, retry_charge, send_payment_link, request_card_update,
  escalate_human, stop, moves_money, permits, Decision, AttemptResult, TerminalReason, recovered,
  policy_stopped, attempt_cap_reached, mandate_violation_blocked, escalated_to_human,
  no_action_taken, recovery_window_closed,
}
use reclaim_os.Domain.Real.{Reals}
use reclaim_os.Generator.World.{WorldRecord, max_slots, resolve, recovery_window_hours}
use reclaim_os.Policy.Config.{LoopState}

abbrev pub charge_attempt_cost : ℕ
charge_attempt_cost = 200

abbrev pub contact_cost : ℕ
contact_cost = 50

-- `cost_of`
unfoldable pub cost_of : ActionType → ℕ
cost_of retry_charge = charge_attempt_cost
cost_of send_payment_link = contact_cost
cost_of request_card_update = contact_cost
cost_of escalate_human = 0
cost_of stop = 0

-- The local variables of `run_record`.
pub record Run (Real : Type 0) : Type 0 where
  pub elapsed : Real
  pub charge_attempts : ℕ
  pub contact_actions : ℕ
  pub cost : ℕ
  pub hard_decline_retries : ℕ
  pub mandate_violations : ℕ
  pub decisions : List (Decision Real)
  pub history : List (Decision Real × AttemptResult Real)
  pub predicted_recoverable : Bool
  pub is_recovered : Bool
  pub amount_recovered : ℕ
  pub hours_to_resolution : Option Real

module _ (R : Reals) where
  open R use {Real, lit, add, hours}

  abbrev pub start : Run Real
  start = record {
    elapsed = lit 0 1;
    charge_attempts = 0;
    contact_actions = 0;
    cost = 0;
    hard_decline_retries = 0;
    mandate_violations = 0;
    decisions = [];
    history = [];
    predicted_recoverable = false;
    is_recovered = false;
    amount_recovered = 0;
    hours_to_resolution = none;
  }

  module _ (r : SubscriptionRecord) (truth : WorldRecord Real) where
    -- The state that the policy sees.
    abbrev pub state_of : Run Real → LoopState Real
    state_of run = record {
      current = r;
      elapsed_hours = run.elapsed;
      charge_attempts = run.charge_attempts;
      contact_actions = run.contact_actions;
      slot = length run.history;
      history = run.history;
    }

    -- `predicted_recoverable` is the first decision's; then `decisions.append(decision)`.
    unfoldable pub note_decision : Decision Real → Run Real → Run Real
    note_decision d run = record run {
      predicted_recoverable =
          if is_empty run.decisions then d.predicted_recoverable else run.predicted_recoverable;
      decisions = run.decisions ++ d ∷ [];
    }

    -- How a STOP ends the loop.
    unfoldable pub stop_terminal : Decision Real → Run Real → TerminalReason
    stop_terminal d run = elim d.stop_reason [
      | some reason ↦ reason
      | none ↦ if is_empty run.history then no_action_taken else policy_stopped
    ]

    -- The books after the world has answered.
    unfoldable pub booked : Decision Real → Real → AttemptResult Real → Run Real → Run Real
    unfolding cost_of
    booked d t_hours result run = record run {
      history = run.history ++ (d, result) ∷ [];
      cost = run.cost + cost_of d.action;
      elapsed = t_hours;
      charge_attempts = run.charge_attempts + (if moves_money d.action then 1 else 0);
      contact_actions = run.contact_actions + (if moves_money d.action then 0 else 1);
      hard_decline_retries =
          run.hard_decline_retries
          + (if moves_money d.action then (if is_hard truth.true_class then 1 else 0) else 0);
    }

    -- The run that a success leaves.
    abbrev pub settled : Real → Run Real → Run Real
    settled t_hours run = record run {
      is_recovered = true;
      amount_recovered = r.plan_amount_paise;
      hours_to_resolution = some t_hours;
    }

    -- The books after the world's answer, and the end on success.
    unfoldable pub answered :
        Decision Real → Real → Run Real → AttemptResult Real → Option TerminalReason × Run Real
    answered d t_hours run result =
        let run' = booked d t_hours result run in
        if result.succeeded then (some recovered, settled t_hours run') else (none, run')

    -- "ask the world".
    unfoldable pub present :
        Decision Real → Real → Run Real → Option (Option TerminalReason × Run Real)
    present d t_hours run =
        elim (resolve R r truth d.action t_hours (length run.history) run.charge_attempts
          run.contact_actions) [ none ↦ none | some result ↦ some (answered d t_hours run result) ]

    -- The safety envelope: the slot cap, the window, the mandate; then the world.
    unfoldable pub envelope : Decision Real → Run Real → Option (Option TerminalReason × Run Real)
    envelope d run =
        let t_hours = add run.elapsed d.delay_hours in
        let at = r.charge_at + hours t_hours in
        if leb max_slots (length run.history)
        then some (some attempt_cap_reached, run)
        else if not (R.leb t_hours (recovery_window_hours R))
        then some (some recovery_window_closed, run)
        else if moves_money d.action
        then if not (permits r.mandate (pos r.plan_amount_paise) r.method at)
          then some (
            some mandate_violation_blocked,
            record run { mandate_violations = run.mandate_violations + 1 },
          )
          else present d t_hours run
        else present d t_hours run

    -- The round for each action.
    unfoldable pub act_on :
        ActionType → Decision Real → Run Real → Option (Option TerminalReason × Run Real)
    act_on stop d run = some (some (stop_terminal d run), run)
    act_on escalate_human d run = some (some escalated_to_human, run)
    act_on retry_charge d run = envelope d run
    act_on send_payment_link d run = envelope d run
    act_on request_card_update d run = envelope d run

    unfoldable pub round : Decision Real → Run Real → Option (Option TerminalReason × Run Real)
    round d run = act_on d.action d (note_decision d run)

    module _ {Q : Type 0} (decide : LoopState Real → Q → Option (Decision Real × Q)) where
      -- `while True:` with fuel; none is an exception, or that the fuel ran out.
      unfoldable pub loop : ℕ → Run Real → Q → Option (TerminalReason × Run Real × Q)
      loop zero run q = none
      loop (suc fuel) run q = elim (decide (state_of run) q) [
        | none ↦ none
        | some (d, q') ↦ elim (round d run) [
          | none ↦ none
          | some (terminal, run') ↦ elim terminal [
            | some reason ↦ some (reason, run', q')
            | none ↦ loop fuel run' q'
          ]
        ]
      ]

      unfoldable pub run_record : Q → Option (TerminalReason × Run Real × Q)
      run_record q = loop (max_slots + 1) start q

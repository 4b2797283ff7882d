-- ===== src/Policy/Agent.antt =====
-- src/reclaimos/policy/agent.py: `ReclaimAgent.decide` and its helpers. The review queue is
-- threaded through; `fresh` is the id that `uuid4` gives if an item is submitted. none is the
-- IndexError of a configuration whose ladder of delays is empty.
pub mod Stages
pub mod Safety
use reclaim_os.Prelude.{
  ℕ, ◌+◌, ◌-◌, Text, codes, ◌++◌, Bool, true, false, not, ◌&&◌, ◌||◌, Option, none, some, List, [],
  ◌∷◌, get_clamped, ltb, lower, if◌then◌else◌,
}
use reclaim_os.Prelude.Int.{pos}
use reclaim_os.Prelude.Decimal.{decimal}
use reclaim_os.Domain.Declines.{
  DeclineClass, is_hard, name, same_class, soft_insufficient_funds, soft_issuer_technical,
  soft_limit_exceeded, expiry_card_expired,
}
use reclaim_os.Domain.Models.{
  ActionType, retry_charge, send_payment_link, request_card_update, escalate_human, stop,
  TerminalReason, policy_stopped, hard_decline_stop, recovery_window_closed, Decision, card,
  same_method,
}
use reclaim_os.Domain.Real.{Reals, max_of}
use reclaim_os.Diagnose.Classifier.{Classification, classify}
use reclaim_os.Diagnose.Propensity.{Propensity, score, recoverable, explain}
use reclaim_os.Policy.Mandate.{Signing, permits_charge}
use reclaim_os.Policy.Review.{ReviewQueue, submit}
use reclaim_os.Policy.Config.{AgentConfig, Calendar, LoopState, hours_until_month_turn}

module _ (R : Reals) (g : Signing) (cal : Calendar R.Real) (config : AgentConfig R.Real) where
  open R use {Real, lit, add, sub, leb, fixed, hours}

  -- `_charge_budget`
  unfoldable pub charge_budget : Classification Real → ℕ
  charge_budget c =
      if config.ambiguity_shortens_ladder && c.hard_possible
      then config.max_charge_attempts - 1
      else config.max_charge_attempts

  -- The calendar branch of `_retry_target_hours`.
  unfoldable pub payday_target : LoopState Real → Real → Real
  payday_target st ladder =
      let payday =
        add (hours_until_month_turn R cal st.current.charge_at) config.payday_buffer_hours in
      if leb payday config.payday_max_wait_hours then max_of R ladder payday else ladder

  -- What the class makes of the ladder's delay.
  unfoldable pub target_from : LoopState Real → Classification Real → Real → Real
  unfolding payday_target
  target_from st c ladder =
      if same_class c.decline_class soft_issuer_technical
      then max_of R ladder config.technical_retry_delay_hours
      else if same_class c.decline_class soft_limit_exceeded
      then max_of R ladder config.limit_exceeded_delay_hours
      else if same_class c.decline_class soft_insufficient_funds && config.payday_alignment
      then payday_target st ladder
      else ladder

  -- `_retry_target_hours`
  unfoldable pub retry_target_hours : LoopState Real → Classification Real → Option Real
  unfolding target_from
  retry_target_hours st c = elim (get_clamped config.soft_retry_delays_hours st.charge_attempts) [
    | none ↦ none
    | some ladder ↦ some (target_from st c ladder)
  ]

  -- `_stop`
  unfoldable pub stop_decision : LoopState Real → Text → TerminalReason → Text → Decision Real
  stop_decision st rule_id reason why = record {
    subscription_id = st.current.subscription_id;
    attempt_no = st.slot + 1;
    action = stop;
    delay_hours = lit 0 0;
    rule_id = rule_id;
    propensity = lit 0 0;
    predicted_recoverable = false;
    rationale = why;
    stop_reason = some reason;
  }

  -- `_act`
  unfoldable pub act :
      LoopState Real → ActionType → Real → Text → Propensity Real → Text → Decision Real
  act st action delay_hours rule_id p why = record {
    subscription_id = st.current.subscription_id;
    attempt_no = st.slot + 1;
    action = action;
    delay_hours = max_of R (lit 0 0) delay_hours;
    rule_id = rule_id;
    propensity = p.score;
    predicted_recoverable = recoverable R p;
    rationale = why;
    stop_reason = none;
  }

  -- "nothing left worth doing": the three stops at the end of `decide`.
  unfoldable pub nothing_left : LoopState Real → DeclineClass → Propensity Real → Decision Real
  unfolding stop_decision
  nothing_left st cls p =
      if is_hard cls
      then stop_decision st (codes "agent.stop.hard_decline." ++ lower (name cls)) hard_decline_stop
          (name cls ++ codes " is a refusal, not an accident. Halting.")
      else if not (leb config.retry_min_propensity p.score)
      then stop_decision st (codes "agent.stop.below_threshold") policy_stopped (
          codes "Propensity "
          ++ (fixed 3 p.score
              ++ (codes " is below the "
                  ++ (fixed 2 config.retry_min_propensity
                      ++ codes " floor; further attempts spend money with no expected return."))))
      else stop_decision st (codes "agent.stop.budget_exhausted") policy_stopped (
          codes "Budget spent: "
          ++ (decimal st.charge_attempts
              ++ (codes " charge attempt(s), "
                  ++ (decimal st.contact_actions ++ codes " contact(s)."))))

  -- The delay of every contact.
  unfoldable pub contact_delay : LoopState Real → Real
  contact_delay st = max_of R (lit 1 0) (sub config.contact_delay_hours st.elapsed_hours)

  -- The outreach section and what stands below it; reached only when no charge is proposed.
  unfoldable pub outreach : LoopState Real → DeclineClass → Propensity Real → Decision Real
  unfolding nothing_left contact_delay act
  outreach st cls p =
      if ltb st.contact_actions config.max_contact_actions
      then if same_class cls expiry_card_expired && same_method st.current.method card
        then if config.contact_on_expiry
          then act st request_card_update (contact_delay st) (codes "agent.contact.card_update") p (
              codes
                "The card has expired; retrying it cannot work. Asking the customer to update the instrument instead.")
          else nothing_left st cls p
        else if is_hard cls && config.contact_on_hard_decline
        then act st send_payment_link (contact_delay st)
            (codes "agent.contact.hard_decline." ++ lower (name cls)) p
            (name cls
              ++ codes
                  " will never authorise on a retry. One payment link so the customer can choose another instrument; no charge attempts.")
        else act st send_payment_link (contact_delay st) (codes "agent.contact.fallback") p
            (codes "Charge attempts are exhausted or not permitted; asking the customer directly.")
      else nothing_left st cls p

  -- `self.queue.submit(…)` if there is a queue.
  unfoldable pub submit_review : Text → LoopState Real → ℕ → Option ReviewQueue → Option ReviewQueue
  submit_review fresh st at none = none
  submit_review fresh st at (some q) =
      let amount = st.current.plan_amount_paise in
      some (
        (submit fresh st.current.subscription_id retry_charge amount
          (codes "charge of "
            ++ (decimal amount
                ++ (codes " paise exceeds the "
                    ++ (decimal config.hitl_amount_threshold_paise
                        ++ codes " paise auto-approve limit"))))
          (codes "agent.gate.amount_threshold") at q).1)

  -- The decision of the human gate.
  unfoldable pub escalation : LoopState Real → Propensity Real → Decision Real
  escalation st p = record {
    subscription_id = st.current.subscription_id;
    attempt_no = st.slot + 1;
    action = escalate_human;
    delay_hours = lit 0 0;
    rule_id = codes "agent.gate.amount_threshold";
    propensity = p.score;
    predicted_recoverable = recoverable R p;
    rationale =
        codes
          "Amount is above the auto-approve limit; queued for human review rather than executed.";
    stop_reason = none;
  }

  -- "delay" and "at" of a proposed charge.
  unfoldable pub charge_delay : LoopState Real → Real → Real
  charge_delay st target = max_of R (lit 1 0) (sub target st.elapsed_hours)

  unfoldable pub planned_at : LoopState Real → Real → ℕ
  planned_at st delay = st.current.charge_at + hours (add st.elapsed_hours delay)

  -- The retry at the target hour.
  unfoldable pub retry :
      LoopState Real → Classification Real → Propensity Real → Real → Decision Real
  retry st c p target =
      act st retry_charge (charge_delay st target)
        (codes "agent.retry."
          ++ (lower (name c.decline_class)
              ++ (codes ".attempt_" ++ decimal (st.charge_attempts + 1))))
        p
        (name c.decline_class
          ++ (codes " with propensity "
              ++ (explain R p
                  ++ (codes "; retrying "
                      ++ (fixed 0 target ++ codes "h after the original failure.")))))

  -- The body of `if wants_charge`, with the target hour: the mandate, the human gate, the retry.
  unfoldable pub propose_charge :
      Text
      → LoopState Real
      → Classification Real
      → Propensity Real
      → Option ReviewQueue
      → Real
      → Decision Real × Option ReviewQueue
  propose_charge fresh st c p queue target =
      let delay = charge_delay st target in
      let at = planned_at st delay in
      let r = st.current in
      if not (permits_charge g r.mandate (pos r.plan_amount_paise) r.method at)
      then (outreach st c.decline_class p, queue)
      else if ltb config.hitl_amount_threshold_paise r.plan_amount_paise
      then (escalation st p, submit_review fresh st at queue)
      else (retry st c p target, queue)

  -- `wants_charge`
  unfoldable pub wants_charge : LoopState Real → Classification Real → Propensity Real → Bool
  unfolding charge_budget
  wants_charge st c p =
      ltb st.charge_attempts (charge_budget c)
      && (not (is_hard c.decline_class)
          && (not (same_class c.decline_class expiry_card_expired)
              && leb config.retry_min_propensity p.score))

  -- The first stopping rule's decision.
  unfoldable pub window_closed : LoopState Real → Decision Real
  unfolding stop_decision
  window_closed st =
      stop_decision st (codes "agent.stop.window_closed") recovery_window_closed
        (codes "Recovery window closed; further contact is noise.")

  unfoldable pub decide :
      Text → LoopState Real → Option ReviewQueue → Option (Decision Real × Option ReviewQueue)
  decide fresh st queue =
      let c = classify R st.current.failed_attempt in
      let p = score R st.current c st.charge_attempts in
      if leb config.recovery_window_hours st.elapsed_hours
      then some (window_closed st, queue)
      else if wants_charge st c p
      then elim (retry_target_hours st c) [
        | none ↦ none
        | some target ↦ some (propose_charge fresh st c p queue target)
      ]
      else some (outreach st c.decline_class p, queue)

-- ===== src/Policy/Agent/Stages.antt =====
-- The stages of `decide` below the charge: stops and contacts, never a charge or an escalation.
use reclaim_os.Prelude.{◌<◌, ◌≡◌, Bool, true, false, Option, some, arith, ◌⊎◌}
use reclaim_os.Domain.Declines.{DeclineClass}
use reclaim_os.Domain.Models.{
  ActionType, retry_charge, send_payment_link, request_card_update, escalate_human, stop,
  TerminalReason, policy_stopped, hard_decline_stop,
}
use reclaim_os.Domain.Real.{Reals}
use reclaim_os.Diagnose.Propensity.{Propensity}
use reclaim_os.Policy.Mandate.{Signing}
use reclaim_os.Policy.Config.{AgentConfig, Calendar, LoopState}
use reclaim_os.Policy.Agent.{outreach, nothing_left, act, stop_decision}

abbrev pub is_contact : ActionType → Bool
is_contact send_payment_link = true
is_contact request_card_update = true
is_contact retry_charge = false
is_contact escalate_human = false
is_contact stop = false

-- A stop, with a reason by which the policy halted itself.
abbrev pub self_halting : Option TerminalReason → Bool
self_halting (some policy_stopped) = true
self_halting (some hard_decline_stop) = true
self_halting _ = false

module _ (R : Reals) (g : Signing) (cal : Calendar R.Real) (config : AgentConfig R.Real) where
  nothing_left-stops :
      (st : LoopState R.Real) (cls : DeclineClass) (p : Propensity R.Real)
      → let d = nothing_left R g cal config st cls p in
        (d.action ≡ stop) × (self_halting d.stop_reason ≡ true)
  unfolding nothing_left stop_decision
  nothing_left-stops st cls p = ground arith

  -- Below the charge, `decide` contacts the customer within the contact budget, or stops with a
  -- reason.
  pub outreach_outcome :
      (st : LoopState R.Real) (cls : DeclineClass) (p : Propensity R.Real)
      → let d = outreach R g cal config st cls p in
        ((is_contact d.action ≡ true) × (st.contact_actions < config.max_contact_actions))
        ⊎ ((d.action ≡ stop) × (self_halting d.stop_reason ≡ true))
  unfolding outreach act
  outreach_outcome st cls p = ground (arith, nothing_left-stops st cls p)

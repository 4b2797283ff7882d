-- ===== src/Policy/Agent/Safety.antt =====
-- Every decision of the agent, with the conditions under which it is made.
use reclaim_os.Prelude.{
  ◌+◌, ◌<◌, ◌≤◌, Text, ◌≡◌, refl, sym, subst, ◌∙◌, true, false, Option, none, some, arith, is_empty,
  get_clamped-some, Option-cases, Bool-cases, inl, inr, ltb, ◌⊎◌, &&-true,
}
use reclaim_os.Prelude.Int.{pos}
use reclaim_os.Domain.Declines.{is_hard, same_class, expiry_card_expired}
use reclaim_os.Domain.Models.{
  retry_charge, escalate_human, stop, Decision, permits, recovery_window_closed,
}
use reclaim_os.Domain.Real.{Reals, IsOrdered, max_of_zero-max_of_one}
use reclaim_os.Diagnose.Classifier.{Classification, classify}
use reclaim_os.Diagnose.Propensity.{Propensity, score}
use reclaim_os.Policy.Mandate.{Signing, permits_charge}
use reclaim_os.Policy.Mandate.Envelope.{permits_charge-permits}
use reclaim_os.Policy.Review.{ReviewQueue}
use reclaim_os.Policy.Config.{AgentConfig, Calendar, LoopState}
use reclaim_os.Policy.Agent.{
  outreach, act, escalation, submit_review, charge_budget, charge_delay, planned_at, wants_charge,
  propose_charge, decide, retry, window_closed, retry_target_hours,
}
use reclaim_os.Policy.Agent.Stages.{is_contact, self_halting, outreach_outcome}

module _ (R : Reals) (g : Signing) (cal : Calendar R.Real) (config : AgentConfig R.Real) where
  abbrev pub diagnosis : LoopState R.Real → Classification R.Real
  diagnosis st = classify R st.current.failed_attempt

  abbrev pub propensity : LoopState R.Real → Propensity R.Real
  propensity st = score R st.current (diagnosis st) st.charge_attempts

  -- What a charge that is presented `delay` hours from now has to meet.
  pub record MayCharge (st : LoopState R.Real) (delay : R.Real) : Type 0 where
    pub window_open : R.leb config.recovery_window_hours st.elapsed_hours ≡ false
    pub within_budget : st.charge_attempts < charge_budget R g cal config (diagnosis st)
    pub not_hard : is_hard (diagnosis st).decline_class ≡ false
    pub not_expired_card : same_class (diagnosis st).decline_class expiry_card_expired ≡ false
    pub likely : R.leb config.retry_min_propensity (propensity st).score ≡ true
    pub covered :
        permits st.current.mandate
          (pos st.current.plan_amount_paise)
          st.current.method
          (st.current.charge_at + R.hours (R.add st.elapsed_hours delay))
        ≡ true

  abbrev pub Charges : LoopState R.Real → Decision R.Real → Type 0
  Charges st d =
      (d.action ≡ retry_charge)
      × MayCharge st d.delay_hours
      × (st.current.plan_amount_paise ≤ config.hitl_amount_threshold_paise)

  abbrev pub Escalates : LoopState R.Real → R.Real → Decision R.Real → Type 0
  Escalates st target d =
      (d.action ≡ escalate_human)
      × MayCharge st (charge_delay R g cal config st target)
      × (config.hitl_amount_threshold_paise < st.current.plan_amount_paise)

  abbrev pub Contacts : LoopState R.Real → Decision R.Real → Type 0
  Contacts st d =
      (is_contact d.action ≡ true)
      × (R.leb config.recovery_window_hours st.elapsed_hours ≡ false)
      × (st.contact_actions < config.max_contact_actions)

  abbrev pub Stops : LoopState R.Real → Decision R.Real → Type 0
  Stops st d =
      (d.action ≡ stop)
      × ((self_halting d.stop_reason ≡ true)
          ⊎ ((d.stop_reason ≡ some recovery_window_closed)
              × (R.leb config.recovery_window_hours st.elapsed_hours ≡ true)))

  abbrev pub Outcome :
      Text → LoopState R.Real → Option ReviewQueue → Decision R.Real × Option ReviewQueue → Type 0
  Outcome fresh st queue out =
      (Charges st out.0 × (out.1 ≡ queue))
      ⊎ (((target : R.Real) × (retry_target_hours R g cal config st (diagnosis st) ≡ some target)
            × Escalates st target out.0
            × (out.1
                ≡ submit_review R g cal config fresh st
                    (planned_at R g cal config st (charge_delay R g cal config st target)) queue))
          ⊎ ((Contacts st out.0 × (out.1 ≡ queue)) ⊎ (Stops st out.0 × (out.1 ≡ queue))))

  -- `decide` raises only where it wants a charge and the ladder is empty.
  abbrev pub Decided :
      Text
      → LoopState R.Real
      → Option ReviewQueue
      → Option (Decision R.Real × Option ReviewQueue)
      → Type 0
  Decided fresh st queue none =
      (is_empty config.soft_retry_delays_hours ≡ true)
      × (R.leb config.recovery_window_hours st.elapsed_hours ≡ false)
      × (wants_charge R g cal config st (diagnosis st) (propensity st) ≡ true)
  Decided fresh st queue (some out) = Outcome fresh st queue out

  retry_target_hours-none :
      (st : LoopState R.Real)
      → retry_target_hours R g cal config st (diagnosis st) ≡ none
      → is_empty config.soft_retry_delays_hours ≡ true
  unfolding retry_target_hours
  retry_target_hours-none st h =
      let delays = config.soft_retry_delays_hours in
      elim (Bool-cases (is_empty delays)) [
        | inl e ↦ e
        | inr e ↦ absurd (ground (arith, get_clamped-some delays st.charge_attempts (R.lit 0 0) e))
      ]

  module _ (o : IsOrdered R) (fresh : Text) (st : LoopState R.Real)
      (queue : Option ReviewQueue) where
    below :
        R.leb config.recovery_window_hours st.elapsed_hours ≡ false
        → Outcome fresh st queue
            (outreach R g cal config st (diagnosis st).decline_class (propensity st), queue)
    below open_ =
        elim (outreach_outcome R g cal config st (diagnosis st).decline_class (propensity st)) [
          | inl (contact, left) ↦ inr (inr (inl ((contact, open_, left), refl)))
          | inr (stopped, why) ↦ inr (inr (inr ((stopped, inl why), refl)))
        ]

    may_charge :
        R.leb config.recovery_window_hours st.elapsed_hours ≡ false
        → wants_charge R g cal config st (diagnosis st) (propensity st) ≡ true
        → (target : R.Real)
        → let delay = charge_delay R g cal config st target in
          permits_charge g st.current.mandate
              (pos st.current.plan_amount_paise)
              st.current.method
              (planned_at R g cal config st delay)
            ≡ true
          → MayCharge st delay
    unfolding wants_charge planned_at
    may_charge open_ wants target permitted =
        let delay = charge_delay R g cal config st target in
        let agree =
          permits_charge-permits g st.current.mandate (pos st.current.plan_amount_paise)
            st.current.method (planned_at R g cal config st delay) in
        record {
          window_open = open_;
          within_budget = ground arith;
          not_hard = ground arith;
          not_expired_card = ground arith;
          likely = ground arith;
          covered = (&&-true _ _ (sym agree ∙ permitted)).1;
        }

    -- A retry's delay is the planned one: max(0.0, …) leaves it alone.
    retry_lem :
        (target : R.Real)
        → let d = retry R g cal config st (diagnosis st) (propensity st) target in
          (d.action ≡ retry_charge) × (d.delay_hours ≡ charge_delay R g cal config st target)
    unfolding retry act charge_delay
    retry_lem target = (refl, max_of_zero-max_of_one R o _)

    abbrev Good : Option (Decision R.Real × Option ReviewQueue) → Type 0
    Good = Decided fresh st queue

    abbrev GoodOutcome : Decision R.Real × Option ReviewQueue → Type 0
    GoodOutcome = Outcome fresh st queue

    wanted :
        R.leb config.recovery_window_hours st.elapsed_hours ≡ false
        → wants_charge R g cal config st (diagnosis st) (propensity st) ≡ true
        → (target : R.Real) → retry_target_hours R g cal config st (diagnosis st) ≡ some target
        → GoodOutcome
            (propose_charge R g cal config fresh st (diagnosis st) (propensity st) queue target)
    unfolding propose_charge
    wanted open_ wants target found =
        let c = diagnosis st in
        let p = propensity st in
        let at = planned_at R g cal config st (charge_delay R g cal config st target) in
        let r = st.current in
        elim (Bool-cases (permits_charge g r.mandate (pos r.plan_amount_paise) r.method at)) [
          | inr refused ↦
              let e : propose_charge R g cal config fresh st c p queue target
                  ≡ (outreach R g cal config st c.decline_class p, queue) =
                rw (refused, propose_charge) refl in
              subst GoodOutcome (sym e) (below open_)
          | inl permitted ↦
              elim (Bool-cases (ltb config.hitl_amount_threshold_paise r.plan_amount_paise)) [
                | inl above ↦
                    let e : propose_charge R g cal config fresh st c p queue target ≡ (
                      escalation R g cal config st p,
                      submit_review R g cal config fresh st at queue,
                    ) =
                      rw (permitted, above, propose_charge) refl in
                    subst GoodOutcome (sym e) (
                      inr (
                        inl (
                          target,
                          found,
                          (
                            unfold escalation in refl,
                            may_charge open_ wants target permitted,
                            ground (arith, above),
                          ),
                          refl,
                        )))
                | inr within ↦
                    let e : propose_charge R g cal config fresh st c p queue target
                        ≡ (retry R g cal config st c p target, queue) =
                      rw (permitted, within, propose_charge) refl in
                    subst GoodOutcome (sym e) (
                      inl (
                        (
                          (retry_lem target).0,
                          subst (MayCharge st) (sym (retry_lem target).1)
                              (may_charge open_ wants target permitted),
                          ground (arith, within),
                        ),
                        refl,
                      ))
              ]
        ]

    -- For floats whose order keeps the laws of IsOrdered, and any record, state,
    -- configuration and queue, `decide` does one of five things. It raises an IndexError: then
    -- the ladder of delays is empty, the window is open and a charge is wanted. It retries: the
    -- window is open, the attempts are below the budget, the class is neither hard nor an
    -- expired card, the propensity reaches the floor, the mandate permits the charge at the
    -- moment for which it is planned, and the amount is at most the review threshold. It
    -- escalates: then a charge would have met all of this but the threshold, and one review
    -- for this amount is submitted if there is a queue. It contacts the customer, within
    -- the window and the contact budget. Or it stops, with a reason. Unless it escalates,
    -- the queue is unchanged.
    pub decide_outcome : Good (decide R g cal config fresh st queue)
    unfolding decide
    decide_outcome =
        let c = diagnosis st in
        let p = propensity st in
        elim (Bool-cases (R.leb config.recovery_window_hours st.elapsed_hours)) [
          | inl closed ↦
              let e : decide R g cal config fresh st queue
                  ≡ some (window_closed R g cal config st, queue) =
                rw (closed, decide) refl in
              subst Good (sym e)
                (inr (inr (inr ((unfold window_closed in (refl, inr (refl, closed))), refl))))
          | inr open_ ↦ elim (Bool-cases (wants_charge R g cal config st c p)) [
            | inl wants ↦ elim (Option-cases (retry_target_hours R g cal config st c)) [
              | inl raised ↦
                  let e : decide R g cal config fresh st queue ≡ none =
                    rw (open_, wants, raised, decide) refl in
                  subst Good (sym e) (retry_target_hours-none st raised, open_, wants)
              | inr (target, found) ↦
                  let e : decide R g cal config fresh st queue
                      ≡ some (propose_charge R g cal config fresh st c p queue target) =
                    rw (open_, wants, found, decide) refl in
                  subst Good (sym e) (wanted open_ wants target found)
            ]
            | inr not_wanted ↦
                let e : decide R g cal config fresh st queue
                    ≡ some (outreach R g cal config st c.decline_class p, queue) =
                  rw (open_, not_wanted, decide) refl in
                subst Good (sym e) (below open_)
          ]
        ]

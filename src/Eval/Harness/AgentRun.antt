-- ===== src/Eval/Harness/AgentRun.antt =====
-- The agent of policy/agent.py as the policy of the harness: it stays inside the envelope.
use reclaim_os.Prelude.{
  ℕ, zero, suc, ◌+◌, ◌≤◌, ◌<◌, Text, ◌≡◌, ◌≢◌, refl, subst, true, false, not, Bool, Option, none,
  some, arith, if_both, inl, inr, leb, Bool-cases, sym, length, is_empty,
}
use reclaim_os.Prelude.Int.{pos}
use reclaim_os.Domain.Models.{
  SubscriptionRecord, ActionType, retry_charge, send_payment_link, request_card_update,
  escalate_human, stop, moves_money, permits, Decision, TerminalReason, mandate_violation_blocked,
  AttemptResult,
}
use reclaim_os.Domain.Real.{Reals, IsOrdered}
use reclaim_os.Generator.World.{WorldRecord, max_slots, recovery_window_hours}
use reclaim_os.Policy.Mandate.{Signing}
use reclaim_os.Policy.Review.{ReviewQueue}
use reclaim_os.Policy.Config.{AgentConfig, Calendar, LoopState}
use reclaim_os.Policy.Agent.{decide, charge_budget}
use reclaim_os.Policy.Agent.Stages.{is_contact}
use reclaim_os.Policy.Agent.Safety.{decide_outcome, Charges, Stops, Outcome, Decided}
use reclaim_os.Eval.Harness.{
  Run, start, state_of, note_decision, booked, answered, present, envelope, act_on, round, loop,
  run_record, stop_terminal,
}
use reclaim_os.Eval.Harness.Total.{Decides, run_record-Ends}
use reclaim_os.Eval.Harness.Accounts.{present_cases}
use reclaim_os.Generator.World.Draws.{has_draws}
use reclaim_os.Prelude.Dict.{is_some}

abbrev is_blocked : TerminalReason → Bool
is_blocked mandate_violation_blocked = true
is_blocked _ = false

module _ (R : Reals) (g : Signing) (cal : Calendar R.Real) (config : AgentConfig R.Real)
    (o : IsOrdered R) (fresh : Text) (r : SubscriptionRecord) (truth : WorldRecord R.Real) where
  -- The limits of the configuration, and no violation.
  pub record IsWithin (run : Run R.Real) : Type 0 where
    pub charges : run.charge_attempts ≤ config.max_charge_attempts
    pub contacts : run.contact_actions ≤ config.max_contact_actions
    pub no_violation : run.mandate_violations ≡ 0

  abbrev Safe : Option (Option TerminalReason × Run R.Real) → Type 0
  Safe none = Unit
  Safe (some (none, run)) = IsWithin run
  Safe (some (some t, run)) = IsWithin run × (is_blocked t ≡ false)

  abbrev HasRoom : Decision R.Real → Run R.Real → Type 0
  HasRoom d run =
      (moves_money d.action ≡ true → run.charge_attempts < config.max_charge_attempts)
      × (moves_money d.action ≡ false → run.contact_actions < config.max_contact_actions)

  answered-Safe :
      (d : Decision R.Real) (t_hours : R.Real) (run : Run R.Real) (result : AttemptResult R.Real)
      → IsWithin run
      → HasRoom d run
      → Safe (some (answered R r truth d t_hours run result))
  unfolding answered booked
  answered-Safe d t_hours run result h left =
      let within : IsWithin (booked R r truth d t_hours result run) =
        elim (Bool-cases (moves_money d.action)) [
          | inl e ↦ record {
            charges = ground (arith, h.charges, left.0 e);
            contacts = ground (arith, h.contacts);
            no_violation = h.no_violation;
          }
          | inr e ↦ record {
            charges = ground (arith, h.charges);
            contacts = ground (arith, h.contacts, left.1 e);
            no_violation = h.no_violation;
          }
        ] in
      if_both (λ out. Safe (some out)) result.succeeded
        (λ hit. (
          record {
            charges = within.charges;
            contacts = within.contacts;
            no_violation = h.no_violation;
          },
          refl,
        ))
        λ miss. within

  present-Safe :
      (d : Decision R.Real) (t_hours : R.Real) (run : Run R.Real)
      → IsWithin run
      → HasRoom d run
      → Safe (present R r truth d t_hours run)
  present-Safe d t_hours run h left =
      present_cases R r truth Safe d t_hours run (λ e. tt)
        λ result. answered-Safe d t_hours run result h left

  envelope-Safe :
      (d : Decision R.Real) (run : Run R.Real)
      → IsWithin run
      → HasRoom d run
      → (moves_money d.action ≡ true
          → permits r.mandate
              (pos r.plan_amount_paise)
              r.method
              (r.charge_at + R.hours (R.add run.elapsed d.delay_hours))
            ≡ true)
      → Safe (envelope R r truth d run)
  unfolding envelope
  envelope-Safe d run h left allowed =
      let t_hours = R.add run.elapsed d.delay_hours in
      let at = r.charge_at + R.hours t_hours in
      if_both Safe (leb max_slots (length run.history)) (λ full. (h, refl))
        λ _.
          if_both Safe (not (R.leb t_hours (recovery_window_hours R))) (λ late. (h, refl))
            λ _.
              if_both Safe (moves_money d.action)
                (λ money.
                  if_both Safe (not (permits r.mandate (pos r.plan_amount_paise) r.method at))
                    (λ refused. absurd (ground (arith, allowed money)))
                    λ _. present-Safe d t_hours run h left)
                λ _. present-Safe d t_hours run h left

  noted :
      (d : Decision R.Real) (run : Run R.Real)
      → IsWithin run
      → IsWithin (note_decision R r truth d run)
  unfolding note_decision
  noted d run h = record {
    charges = h.charges;
    contacts = h.contacts;
    no_violation = h.no_violation;
  }

  abbrev PresentedSafe : Decision R.Real → Run R.Real → Type 0
  PresentedSafe d run = Safe (act_on R r truth d.action d (note_decision R r truth d run))

  charge-Safe :
      (d : Decision R.Real) (run : Run R.Real)
      → IsWithin run
      → Charges R g cal config (state_of R r truth run) d
      → PresentedSafe d run
  unfolding note_decision charge_budget
  charge-Safe d run h (a, may, _) =
      subst (λ x. Safe (act_on R r truth x d (note_decision R r truth d run))) (sym a)
        (unfold act_on in
          envelope-Safe d (note_decision R r truth d run) (noted d run h)
            ((λ m. ground (arith, may.within_budget)), λ m. ground (arith, a)) (λ m. may.covered))

  contact-Safe :
      (a : ActionType) (d : Decision R.Real) (run : Run R.Real)
      → d.action ≡ a
      → IsWithin run
      → is_contact a ≡ true
      → run.contact_actions < config.max_contact_actions
      → Safe (act_on R r truth a d (note_decision R r truth d run))
  unfolding act_on note_decision
  contact-Safe send_payment_link d run e h c left =
      envelope-Safe d (note_decision R r truth d run) (noted d run h)
        ((λ m. ground (arith, e)), λ m. left) λ m. ground (arith, e)
  contact-Safe request_card_update d run e h c left =
      envelope-Safe d (note_decision R r truth d run) (noted d run h)
        ((λ m. ground (arith, e)), λ m. left) λ m. ground (arith, e)
  contact-Safe retry_charge d run e h c left = absurd (cc)
  contact-Safe escalate_human d run e h c left = absurd (cc)
  contact-Safe stop d run e h c left = absurd (cc)

  stop-Safe :
      (d : Decision R.Real) (run : Run R.Real)
      → IsWithin run
      → Stops R g cal config (state_of R r truth run) d
      → PresentedSafe d run
  unfolding act_on stop_terminal
  stop-Safe d run h (a, why) =
      subst (λ x. Safe (act_on R r truth x d (note_decision R r truth d run))) (sym a)
        (
          noted d run h,
          elim why [ inl own ↦ ground (arith, own) | inr (closed, _) ↦ ground (arith, closed) ],
        )

  round-Safe :
      (run : Run R.Real) (q : Option ReviewQueue)
      → IsWithin run
      → (d : Decision R.Real) (q' : Option ReviewQueue)
      → Outcome R g cal config fresh (state_of R r truth run) q (d, q')
      → Safe (round R r truth d run)
  unfolding round
  round-Safe run q h d q' outcome = elim outcome [
    | inl (charges, _) ↦ charge-Safe d run h charges
    | inr (inl (_, _, (a, _, _), _)) ↦
        subst (λ x. Safe (act_on R r truth x d (note_decision R r truth d run))) (sym a)
          (unfold act_on in (noted d run h, refl))
    | inr (inr (inl ((contact, _, left), _))) ↦ contact-Safe d.action d run refl h contact left
    | inr (inr (inr (stops, _))) ↦ stop-Safe d run h stops
  ]

  abbrev agent :
      LoopState R.Real → Option ReviewQueue → Option (Decision R.Real × Option ReviewQueue)
  agent = decide R g cal config fresh

  -- What the end of a run keeps, if there is one.
  abbrev Kept : Option (TerminalReason × Run R.Real × Option ReviewQueue) → Type 0
  Kept none = Unit
  Kept (some (t, run, q)) = IsWithin run × (is_blocked t ≡ false)

  next-Kept :
      (fuel : ℕ) (q' : Option ReviewQueue) (out : Option (Option TerminalReason × Run R.Real))
      → Safe out
      → ((run : Run R.Real) → IsWithin run → Kept (loop R r truth agent fuel run q'))
      → Kept (elim out [
        | none ↦ none
        | some (terminal, run') ↦ elim terminal [
          | some reason ↦ some (reason, run', q')
          | none ↦ loop R r truth agent fuel run' q'
        ]
      ])
  next-Kept fuel q' none h rest = tt
  next-Kept fuel q' (some (some t, run)) h rest = h
  next-Kept fuel q' (some (none, run)) h rest = rest run h

  go_on :
      (fuel : ℕ) (run : Run R.Real) (q : Option ReviewQueue)
      (out : Option (Decision R.Real × Option ReviewQueue))
      → IsWithin run
      → Decided R g cal config fresh (state_of R r truth run) q out
      → ((run' : Run R.Real) (q' : Option ReviewQueue)
          → IsWithin run'
          → Kept (loop R r truth agent fuel run' q'))
      → Kept (elim out [
        | none ↦ none
        | some (d, q') ↦ elim (round R r truth d run) [
          | none ↦ none
          | some (terminal, run') ↦ elim terminal [
            | some reason ↦ some (reason, run', q')
            | none ↦ loop R r truth agent fuel run' q'
          ]
        ]
      ])
  go_on fuel run q none h outcome rest = tt
  go_on fuel run q (some (d, q')) h outcome rest =
      next-Kept fuel q' (round R r truth d run) (round-Safe run q h d q' outcome)
        λ run'. rest run' q'

  loop-Kept :
      (fuel : ℕ) (run : Run R.Real) (q : Option ReviewQueue)
      → IsWithin run
      → Kept (loop R r truth agent fuel run q)
  unfolding loop
  loop-Kept zero run q h = tt
  loop-Kept (suc fuel) run q h =
      go_on fuel run q (agent (state_of R r truth run) q) h
        (decide_outcome R g cal config o fresh (state_of R r truth run) q)
        λ run' q' h'. loop-Kept fuel run' q' h'

  run_record-Kept : (q : Option ReviewQueue) → Kept (run_record R r truth agent q)
  unfolding run_record
  run_record-Kept q =
      loop-Kept (max_slots + 1) (start R) q
        (record { charges = omega arith; contacts = omega arith; no_violation = refl })

  -- The run of the agent ended inside its limits.
  abbrev pub EndsWithin : Option (TerminalReason × Run R.Real × Option ReviewQueue) → Type 0
  EndsWithin out =
      (t : TerminalReason) × (run : Run R.Real) × (q : Option ReviewQueue) × (out
        ≡ some (t, run, q))
      × IsWithin run
      × (t ≢ mandate_violation_blocked)

  -- With a delay in the ladder the agent always decides.
  pub agent-Decides : is_empty config.soft_retry_delays_hours ≡ false → Decides agent
  agent-Decides some_delay st q = answers (agent st q) (decide_outcome R g cal config o fresh st q)
    where
      answers :
          (out : Option (Decision R.Real × Option ReviewQueue))
          → Decided R g cal config fresh st q out
          → is_some out ≡ true
      answers none h = absurd (cc)
      answers (some d) h = refl

  -- For floats whose order keeps the laws of IsOrdered, a configuration whose ladder has a delay,
  -- a sealed record that has a draw, and any subscription and queue: the agent's run in the
  -- harness ends, it is never stopped for a mandate violation and counts none, and it makes at
  -- most the configured number of charge attempts and of contacts.
  pub run_record-agent :
      is_empty config.soft_retry_delays_hours ≡ false
      → has_draws truth ≡ true
      → (q : Option ReviewQueue) → EndsWithin (run_record R r truth agent q)
  run_record-agent some_delay drawn q =
      let (t, run, q', e, _) = run_record-Ends R r truth agent drawn (agent-Decides some_delay) q in
      let (within, free) = subst Kept e (run_record-Kept q) in
      (t, run, q', e, within, λ blocked. ground arith)

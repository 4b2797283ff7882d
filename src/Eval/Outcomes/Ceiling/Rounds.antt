-- ===== src/Eval/Outcomes/Ceiling/Rounds.antt =====
-- One slot of the replayed ceiling in the harness: what a round makes of the best pair.
use reclaim_os.Prelude.{
  ◌<◌, ◌≡◌, refl, ◌∙◌, Bool, true, false, not, ◌&&◌, Option, none, some, length, leb, if◌then◌else◌,
  arith,
}
use reclaim_os.Domain.Models.{
  SubscriptionRecord, ActionType, retry_charge, send_payment_link, request_card_update, stop,
  escalate_human, recovered, Decision, moves_money, TerminalReason,
}
use reclaim_os.Domain.Real.{Reals, ltb as lt_real}
use reclaim_os.Generator.World.{WorldRecord, max_slots, success_probability}
use reclaim_os.Generator.World.Draws.{has_draws, draw_of, answer_of, resolve-drawn}
use reclaim_os.Generator.Oracle.{OracleResult, is_allowed}
use reclaim_os.Eval.Harness.{
  Run, state_of, note_decision, booked, settled, answered, present, envelope, act_on, round,
}
use reclaim_os.Eval.Harness.Accounts.{is_presented}
use reclaim_os.Eval.Outcomes.Ceiling.{reader_decision}

-- The four tests of the envelope, all passed.
tests_passed :
    {A : Type 0} (full in_time money permitted : Bool) (x y z w : A)
    → full ≡ false
    → (not (if in_time then false else true) && not (money && not permitted)) ≡ true
    → (if full
        then x
        else if not in_time
        then y
        else if money
        then if not permitted then z else w
        else w)
      ≡ w
tests_passed true i m p x y z w e h = cc
tests_passed false false m p x y z w e h = cc
tests_passed false true false p x y z w e h = refl
tests_passed false true true true x y z w e h = refl
tests_passed false true true false x y z w e h = cc

module _ (R : Reals) (r : SubscriptionRecord) (truth : WorldRecord R.Real) where
  open R use {Real, lit, add}

  pub envelope-open :
      (d : Decision Real) (run : Run Real)
      → length run.history < max_slots
      → is_allowed R r truth run.elapsed run.charge_attempts run.contact_actions d.action
          (add run.elapsed d.delay_hours)
        ≡ true
      → envelope R r truth d run ≡ present R r truth d (add run.elapsed d.delay_hours) run
  unfolding envelope is_allowed
  envelope-open d run room allowed =
      tests_passed (leb max_slots (length run.history)) _ (moves_money d.action) _ _ _ _ _
        (ground arith) allowed

  pub act_on-presented :
      (a : ActionType) (d : Decision Real) (run : Run Real)
      → is_presented a ≡ true
      → act_on R r truth a d run ≡ envelope R r truth d run
  unfolding act_on
  act_on-presented retry_charge d run h = refl
  act_on-presented send_payment_link d run h = refl
  act_on-presented request_card_update d run h = refl
  act_on-presented escalate_human d run h = cc
  act_on-presented stop d run h = cc

  present-drawn :
      (d : Decision Real) (t : Real) (run : Run Real)
      → has_draws truth ≡ true
      → present R r truth d t run
        ≡ some (
            answered R r truth d t run (
              answer_of R r truth d.action t
                (length run.history)
                run.charge_attempts
                run.contact_actions))
  unfolding present
  present-drawn d t run drawn =
      rw
        (
          resolve-drawn R r truth d.action t (length run.history) run.charge_attempts
              run.contact_actions drawn,
          present,
        )
        refl

  -- Where a run stands after a slot whose draw was below the probability, or not.
  pub record IsFresh (run : Run Real) : Type 0 where
    pub not_recovered : run.is_recovered ≡ false
    pub no_hours : run.hours_to_resolution ≡ none
    pub no_violation : run.mandate_violations ≡ 0

  -- The end of a run that agrees with a result of the ceiling.
  abbrev pub Agrees : OracleResult Real → Run Real → Type 0
  Agrees o run =
      (run.is_recovered ≡ o.recovered)
      × (run.charge_attempts ≡ o.charge_attempts)
      × (run.contact_actions ≡ o.contact_actions)
      × (run.hours_to_resolution ≡ (if o.recovered then some o.hours else none))
      × (run.mandate_violations ≡ 0)

  abbrev pub Replayed : OracleResult Real → Option (TerminalReason × Run Real × Unit {0}) → Type 0
  Replayed o out =
      (t : TerminalReason) × (run : Run Real) × (out ≡ some (t, run, tt)) × Agrees o run

  -- The books after the slot in which the action is presented.
  abbrev pub after_slot : ActionType → Real → Run Real → Run Real
  after_slot a delay run =
      let t = add run.elapsed delay in
      let d = reader_decision R r truth a delay (state_of R r truth run) in
      booked R r truth d t
        (answer_of R r truth a t (length run.history) run.charge_attempts run.contact_actions)
        (note_decision R r truth d run)

  pub round-best :
      (a : ActionType) (delay : Real) (run : Run Real)
      → has_draws truth ≡ true
      → is_presented a ≡ true
      → length run.history < max_slots
      → is_allowed R r truth run.elapsed run.charge_attempts run.contact_actions a
          (add run.elapsed delay)
        ≡ true
      → round R r truth (reader_decision R r truth a delay (state_of R r truth run)) run
        ≡ some (
            if lt_real R (draw_of R r truth (length run.history)) (
              success_probability R r truth a
                (add run.elapsed delay)
                run.charge_attempts
                run.contact_actions)
            then (
              some recovered,
              settled R r truth (add run.elapsed delay) (after_slot a delay run),
            )
            else (none, after_slot a delay run))
  unfolding round answered note_decision reader_decision is_allowed booked
  round-best a delay run drawn h room allowed =
      let d = reader_decision R r truth a delay (state_of R r truth run) in
      let noted = note_decision R r truth d run in
      act_on-presented a d noted h
      ∙ envelope-open d noted room allowed
      ∙ present-drawn d (add run.elapsed delay) noted drawn

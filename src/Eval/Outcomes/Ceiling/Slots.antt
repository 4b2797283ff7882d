-- ===== src/Eval/Outcomes/Ceiling/Slots.antt =====
-- A slot of the ceiling beside a round of the loop.
use reclaim_os.Prelude.{
  ℕ, suc, ◌+◌, ◌≤◌, ◌<◌, ◌≡◌, refl, sym, ap, ◌∙◌, subst, true, false, Option, none, some, length,
  if_both, min, leb, le→leb, if◌then◌else◌, arith,
}
use reclaim_os.Domain.Models.{
  SubscriptionRecord, ActionType, stop, recovered, Decision, moves_money, TerminalReason,
}
use reclaim_os.Domain.Real.{Reals, ltb as lt_real}
use reclaim_os.Generator.World.{WorldRecord, max_slots, success_probability}
use reclaim_os.Generator.World.Draws.{has_draws, draw_of, get_clamped-draw_of}
use reclaim_os.Generator.Oracle.{OracleResult, Best, is_allowed, best_pair, slots_from}
use reclaim_os.Generator.Oracle.Greedy.{best_pair-IsPair}
use reclaim_os.Policy.Config.{LoopState}
use reclaim_os.Eval.Harness.{Run, state_of, note_decision, settled, act_on, round, loop}
use reclaim_os.Eval.Harness.Accounts.{is_presented}
use reclaim_os.Eval.Harness.Total.{Decides}
use reclaim_os.Eval.Outcomes.Ceiling.{
  tracked_pair, tracked_pair-best_pair, Leads, tracked_pair-Leads, reader_decision, truth_reader,
}
use reclaim_os.Eval.Outcomes.Ceiling.Rounds.{IsFresh, Replayed, after_slot, round-best}

module _ (R : Reals) (r : SubscriptionRecord) (truth : WorldRecord R.Real) (max_attempts : ℕ) where
  open R use {Real, lit, add}

  -- What the loop makes of a round.
  abbrev pub continue :
      ℕ → Option (Option TerminalReason × Run Real) → Option (TerminalReason × Run Real × Unit {0})
  continue fuel out = elim out [
    | none ↦ none
    | some (terminal, run) ↦ elim terminal [
      | some reason ↦ some (reason, run, tt)
      | none ↦ loop R r truth (truth_reader R r truth max_attempts) fuel run tt
    ]
  ]

  -- What the loop makes of a decision.
  abbrev stepped :
      ℕ
      → Run Real
      → Option (Decision Real × Unit {0})
      → Option (TerminalReason × Run Real × Unit {0})
  stepped fuel run o = elim o [
    | none ↦ none
    | some (d, q) ↦ elim (round R r truth d run) [
      | none ↦ none
      | some (terminal, run') ↦ elim terminal [
        | some reason ↦ some (reason, run', q)
        | none ↦ loop R r truth (truth_reader R r truth max_attempts) fuel run' q
      ]
    ]
  ]

  abbrev decides : Decision Real → Option (Decision Real × Unit {0})
  decides d = some (d, tt)

  pub loop-ends :
      (fuel : ℕ) (run : Run Real) {d : Decision Real} {t : TerminalReason} {run' : Run Real}
      → truth_reader R r truth max_attempts (state_of R r truth run) tt ≡ some (d, tt)
      → round R r truth d run ≡ some (some t, run')
      → loop R r truth (truth_reader R r truth max_attempts) (suc fuel) run tt ≡ some (t, run', tt)
  unfolding loop
  loop-ends fuel run ed er = ap (stepped fuel run) ed ∙ ap (continue fuel) er

  pub loop-goes_on :
      (fuel : ℕ) (run : Run Real) {d : Decision Real} {run' : Run Real}
      → truth_reader R r truth max_attempts (state_of R r truth run) tt ≡ some (d, tt)
      → round R r truth d run ≡ some (none, run')
      → loop R r truth (truth_reader R r truth max_attempts) (suc fuel) run tt
        ≡ loop R r truth (truth_reader R r truth max_attempts) fuel run' tt
  unfolding loop
  loop-goes_on fuel run ed er = ap (stepped fuel run) ed ∙ ap (continue fuel) er

  pub reader-Decides : Decides (truth_reader R r truth max_attempts)
  unfolding truth_reader
  reader-Decides st q = refl

  module _ (run : Run Real) where
    abbrev pub here : LoopState Real
    here = state_of R r truth run

    abbrev pub pick : Best Real
    pick = best_pair R r truth run.elapsed run.charge_attempts run.contact_actions

    abbrev pub kept_delay : Real
    kept_delay = (tracked_pair R r truth run.elapsed run.charge_attempts run.contact_actions).1

    pub reader-full :
        min max_attempts max_slots ≤ length run.history
        → truth_reader R r truth max_attempts here tt
          ≡ some (reader_decision R r truth stop (lit 0 1) here, tt)
    unfolding truth_reader
    reader-full h = rw (le→leb (min max_attempts max_slots) (length run.history) h) refl

    pub tracked_action_is :
        {o : Option ActionType}
        → pick.action ≡ o
        → (tracked_pair R r truth run.elapsed run.charge_attempts run.contact_actions).0.action ≡ o
    tracked_action_is e =
        ap (λ b. b.action)
          (tracked_pair-best_pair R r truth run.elapsed run.charge_attempts run.contact_actions)
        ∙ e

    pub reader-none :
        pick.action ≡ none
        → truth_reader R r truth max_attempts here tt
          ≡ some (reader_decision R r truth stop (lit 0 1) here, tt)
    unfolding truth_reader
    reader-none e = ap decides (
        if_both (λ d. d ≡ reader_decision R r truth stop (lit 0 1) here)
          (leb (min max_attempts max_slots) (length run.history)) (λ full. refl)
          λ room. rw (tracked_action_is e) refl)

    pub reader-some :
        {a : ActionType}
        → length run.history < min max_attempts max_slots
        → pick.action ≡ some a
        → truth_reader R r truth max_attempts here tt
          ≡ some (reader_decision R r truth a kept_delay here, tt)
    unfolding truth_reader
    reader-some {a} h e =
        let room : leb (min max_attempts max_slots) (length run.history) ≡ false = ground arith in
        rw room (rw (tracked_action_is e) refl)

    pub round-stop :
        (out : TerminalReason × Run Real) × (round R r truth
            (reader_decision R r truth stop (lit 0 1) here)
            run
          ≡ some (some out.0, out.1))
        × (out.1.charge_attempts ≡ run.charge_attempts)
        × (out.1.contact_actions ≡ run.contact_actions)
        × (IsFresh R r truth run → IsFresh R r truth out.1)
    unfolding round act_on reader_decision note_decision
    round-stop = (
      (_, _),
      refl,
      refl,
      refl,
      λ f. record {
        not_recovered = f.not_recovered;
        no_hours = f.no_hours;
        no_violation = f.no_violation;
      },
    )

    -- A slot without a decision of the grid ends the run with nothing recovered.
    pub halts :
        (fuel : ℕ) (o : OracleResult Real)
        → truth_reader R r truth max_attempts here tt
          ≡ some (reader_decision R r truth stop (lit 0 1) here, tt)
        → IsFresh R r truth run
        → o.recovered ≡ false
        → o.charge_attempts ≡ run.charge_attempts
        → o.contact_actions ≡ run.contact_actions
        → Replayed R r truth o
            (loop R r truth (truth_reader R r truth max_attempts) (suc fuel) run tt)
    halts fuel o ed f er ec ek =
        let (out, e, charges, contacts, fresh) = round-stop in
        let g = fresh f in
        (
          out.0,
          out.1,
          loop-ends fuel run ed e,
          (
            g.not_recovered ∙ sym er,
            charges ∙ sym ec,
            contacts ∙ sym ek,
            rw er (g.no_hours),
            g.no_violation,
          ),
        )

    abbrev pub unrecovered : OracleResult Real
    unrecovered = record {
      recovered = false;
      hours = run.elapsed;
      charge_attempts = run.charge_attempts;
      contact_actions = run.contact_actions;
    }

    pub slots-none :
        (left slot : ℕ)
        → pick.action ≡ none
        → slots_from R r truth (suc left) slot run.elapsed run.charge_attempts run.contact_actions
          ≡ some unrecovered
    unfolding slots_from
    slots-none left slot e = rw (e, slots_from) refl

    pub slots-zero :
        slots_from R r truth 0
          (length run.history)
          run.elapsed
          run.charge_attempts
          run.contact_actions
        ≡ some unrecovered
    unfolding slots_from
    slots-zero = refl

    abbrev pub charges_after : ActionType → ℕ
    charges_after a = run.charge_attempts + (if moves_money a then 1 else 0)

    abbrev pub contacts_after : ActionType → ℕ
    contacts_after a = run.contact_actions + (if moves_money a then 0 else 1)

    pub slots-some :
        (left slot : ℕ) {a : ActionType}
        → has_draws truth ≡ true
        → pick.action ≡ some a
        → slots_from R r truth (suc left) slot run.elapsed run.charge_attempts run.contact_actions
          ≡ (if lt_real R (draw_of R r truth slot) pick.p
              then some (record {
                recovered = true;
                hours = pick.t;
                charge_attempts = charges_after a;
                contact_actions = contacts_after a;
              })
              else slots_from R r truth left (suc slot) pick.t (charges_after a) (contacts_after a))
    unfolding slots_from
    slots-some left slot drawn e =
        rw (e, slots_from) (rw (get_clamped-draw_of R r truth slot drawn) refl)

    -- What is known of the picked pair.
    pub picked :
        {a : ActionType}
        → pick.action ≡ some a
        → (pick.t ≡ add run.elapsed kept_delay)
          × (is_presented a ≡ true)
          × (is_allowed R r truth run.elapsed run.charge_attempts run.contact_actions a pick.t
              ≡ true)
          × (pick.p
              ≡ success_probability R r truth a pick.t run.charge_attempts run.contact_actions)
    picked {a} e =
        let led : Leads R r truth run.elapsed run.charge_attempts run.contact_actions
            (pick, kept_delay) =
          subst
            (λ b.
              Leads R r truth run.elapsed run.charge_attempts run.contact_actions (b, kept_delay))
            (tracked_pair-best_pair R r truth run.elapsed run.charge_attempts run.contact_actions)
            (tracked_pair-Leads R r truth run.elapsed run.charge_attempts run.contact_actions) in
        let (time, presented) =
          subst
            (λ o. elim o [
              | none ↦ Unit {0}
              | some b ↦ (pick.t ≡ add run.elapsed kept_delay) × (is_presented b ≡ true)
            ])
            e led in
        let (allowed, likely) =
          subst
            (λ o. elim o [
              | none ↦ Unit {0}
              | some b ↦
                  (is_allowed R r truth run.elapsed run.charge_attempts run.contact_actions b pick.t
                    ≡ true)
                  × (pick.p
                      ≡ success_probability R r truth b pick.t run.charge_attempts
                          run.contact_actions)
            ])
            e (best_pair-IsPair R r truth run.elapsed run.charge_attempts run.contact_actions) in
        (time, presented, allowed, likely)

    pub round-pick :
        {a : ActionType}
        → has_draws truth ≡ true
        → pick.action ≡ some a
        → length run.history < max_slots
        → round R r truth (reader_decision R r truth a kept_delay here) run
          ≡ some (
              if lt_real R (draw_of R r truth (length run.history)) pick.p
              then (
                some recovered,
                settled R r truth pick.t (after_slot R r truth a kept_delay run),
              )
              else (none, after_slot R r truth a kept_delay run))
    round-pick {a} drawn e room =
        let (time, presented, allowed, likely) = picked e in
        let open_here : is_allowed R r truth run.elapsed run.charge_attempts run.contact_actions a
              (add run.elapsed kept_delay)
            ≡ true =
          subst
            (λ t.
              is_allowed R r truth run.elapsed run.charge_attempts run.contact_actions a t ≡ true)
            time allowed in
        rw likely (rw time (round-best R r truth a kept_delay run drawn presented room open_here))

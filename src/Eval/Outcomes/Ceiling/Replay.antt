-- ===== src/Eval/Outcomes/Ceiling/Replay.antt =====
-- The ceiling of a record is the run of a policy that reads the truth.
use reclaim_os.Prelude.{
  ℕ, zero, suc, ◌+◌, ◌≤◌, ◌≡◌, refl, sym, ap, ◌∙◌, subst, true, Option, some, [], ◌∷◌, length,
  length-append, if_true, if_false, min, if◌then◌else◌, Bool-cases, Option-cases, inl, inr, arith,
}
use reclaim_os.Domain.Models.{SubscriptionRecord, ActionType, recovered, TerminalReason}
use reclaim_os.Domain.Real.{Reals, ltb as lt_real}
use reclaim_os.Generator.World.{WorldRecord, max_slots}
use reclaim_os.Generator.World.Draws.{has_draws, draw_of}
use reclaim_os.Generator.Oracle.{OracleResult, slots_from, oracle_recovers}
use reclaim_os.Eval.Harness.{Run, start, note_decision, booked, settled, loop, run_record, cost_of}
use reclaim_os.Eval.Harness.Total.{run_record-Ends}
use reclaim_os.Eval.Outcomes.{RecordOutcome, outcome_of, oracle_outcome}
use reclaim_os.Eval.Harness.Accounts.{IsBalanced, Settled}
use reclaim_os.Eval.Outcomes.Ceiling.{reader_decision, truth_reader}
use reclaim_os.Eval.Outcomes.Ceiling.Rounds.{IsFresh, Replayed, after_slot}
use reclaim_os.Eval.Outcomes.Ceiling.Slots.{
  loop-ends, loop-goes_on, pick, kept_delay, reader-full, reader-none, reader-some, halts,
  slots-none, slots-zero, slots-some, unrecovered, charges_after, contacts_after, picked,
  round-pick, reader-Decides,
}

-- The money and the costs of the two rows.
abbrev pub SameRow : {Real : Type 0} → RecordOutcome Real → RecordOutcome Real → Type 0
SameRow a b =
    (a.is_recovered ≡ b.is_recovered)
    × (a.amount_recovered_paise ≡ b.amount_recovered_paise)
    × (a.charge_attempts ≡ b.charge_attempts)
    × (a.contact_actions ≡ b.contact_actions)
    × (a.cost_paise ≡ b.cost_paise)
    × (a.hours_to_resolution ≡ b.hours_to_resolution)
    × (a.mandate_violations ≡ b.mandate_violations)

module _ (R : Reals) (r : SubscriptionRecord) (truth : WorldRecord R.Real) (max_attempts : ℕ)
    (drawn : has_draws truth ≡ true) where
  open R use {Real, lit, add}

  after_slot-history :
      (a : ActionType) (delay : Real) (run : Run Real)
      → length (after_slot R r truth a delay run).history ≡ suc (length run.history)
  unfolding booked note_decision
  after_slot-history a delay run = length-append run.history (_ ∷ []) ∙ omega arith

  after_slot-charges :
      (a : ActionType) (delay : Real) (run : Run Real)
      → (after_slot R r truth a delay run).charge_attempts
        ≡ charges_after R r truth max_attempts run a
  unfolding booked note_decision reader_decision
  after_slot-charges a delay run = refl

  after_slot-contacts :
      (a : ActionType) (delay : Real) (run : Run Real)
      → (after_slot R r truth a delay run).contact_actions
        ≡ contacts_after R r truth max_attempts run a
  unfolding booked note_decision reader_decision
  after_slot-contacts a delay run = refl

  after_slot-IsFresh :
      (a : ActionType) (delay : Real) (run : Run Real)
      → IsFresh R r truth run
      → IsFresh R r truth (after_slot R r truth a delay run)
  unfolding booked note_decision
  after_slot-IsFresh a delay run f = record {
    not_recovered = f.not_recovered;
    no_hours = f.no_hours;
    no_violation = f.no_violation;
  }

  -- The result that the ceiling gives for the rest of a run.
  abbrev rest_of : ℕ → Run Real → Option (OracleResult Real)
  rest_of left run =
      slots_from R r truth left (length run.history) run.elapsed run.charge_attempts
        run.contact_actions

  rest_of-after_slot :
      (left : ℕ) (run : Run Real) {a : ActionType}
      → (pick R r truth max_attempts run).action ≡ some a
      → rest_of left (after_slot R r truth a (kept_delay R r truth max_attempts run) run)
        ≡ slots_from R r truth left
            (suc (length run.history))
            (pick R r truth max_attempts run).t
            (charges_after R r truth max_attempts run a)
            (contacts_after R r truth max_attempts run a)
  unfolding booked note_decision reader_decision
  rest_of-after_slot left run e =
      let same_time = (picked R r truth max_attempts run e).0 in
      rw (after_slot-history _ (kept_delay R r truth max_attempts run) run) (rw same_time refl)

  -- The ceiling has a result, and the run agrees with it.
  abbrev Replays :
      Option (OracleResult Real) → Option (TerminalReason × Run Real × Unit {0}) → Type 0
  Replays result out = (o : OracleResult Real) × (result ≡ some o) × Replayed R r truth o out

  slots_from-Replays :
      (left fuel : ℕ) (run : Run Real)
      → left + length run.history ≡ min max_attempts max_slots
      → 9 ≤ fuel + length run.history
      → IsFresh R r truth run
      → Replays
          (rest_of left run)
          (loop R r truth (truth_reader R r truth max_attempts) fuel run tt)
  slots_from-Replays zero zero run total enough f = absurd (omega arith)
  slots_from-Replays zero (suc fuel) run total enough f =
      subst
        (λ o. Replays o (loop R r truth (truth_reader R r truth max_attempts) (suc fuel) run tt))
        (sym (slots-zero R r truth max_attempts run))
        (
          unrecovered R r truth max_attempts run,
          refl,
          halts R r truth max_attempts run fuel (unrecovered R r truth max_attempts run)
              (reader-full R r truth max_attempts run (omega arith)) f refl refl refl,
        )
  slots_from-Replays (suc left) zero run total enough f = absurd (omega arith)
  slots_from-Replays (suc left) (suc fuel) run total enough f =
      elim (Option-cases (pick R r truth max_attempts run).action) [
        | inl e ↦
            subst
              (λ o.
                Replays o (loop R r truth (truth_reader R r truth max_attempts) (suc fuel) run tt))
              (sym (slots-none R r truth max_attempts run left (length run.history) e))
              (
                unrecovered R r truth max_attempts run,
                refl,
                halts R r truth max_attempts run fuel (unrecovered R r truth max_attempts run)
                    (reader-none R r truth max_attempts run e) f refl refl refl,
              )
        | inr (a, e) ↦
            let run' = after_slot R r truth a (kept_delay R r truth max_attempts run) run in
            let f' = after_slot-IsFresh a (kept_delay R r truth max_attempts run) run f in
            let chosen = reader-some R r truth max_attempts run (omega arith) e in
            let goes = round-pick R r truth max_attempts run drawn e (omega arith) in
            elim (Bool-cases (
              lt_real R (draw_of R r truth (length run.history))
                (pick R r truth max_attempts run).p)) [
                  | inl hit ↦
                      subst
                        (λ o.
                          Replays o (
                            loop R r truth (truth_reader R r truth max_attempts) (suc fuel) run tt))
                        (sym (
                          slots-some R r truth max_attempts run left (length run.history) drawn e
                          ∙ if_true _ hit))
                        (
                          _,
                          refl,
                          (
                            recovered,
                            settled R r truth (pick R r truth max_attempts run).t run',
                            loop-ends R r truth max_attempts fuel run chosen
                                (goes ∙ ap some (if_true _ hit)),
                            (
                              refl,
                              after_slot-charges a (kept_delay R r truth max_attempts run) run,
                              after_slot-contacts a (kept_delay R r truth max_attempts run) run,
                              refl,
                              f'.no_violation,
                            ),
                          ),
                        )
                  | inr miss ↦
                      let here_on : rest_of (suc left) run ≡ rest_of left run' =
                        slots-some R r truth max_attempts run left (length run.history) drawn e
                        ∙ if_false _ miss
                        ∙ sym (rest_of-after_slot left run e) in
                      let longer =
                        after_slot-history a (kept_delay R r truth max_attempts run) run in
                      let (o, found, (t, last, ends, agrees)) =
                        slots_from-Replays left fuel run' (omega arith) (omega arith) f' in
                      subst
                        (λ o.
                          Replays o (
                            loop R r truth (truth_reader R r truth max_attempts) (suc fuel) run tt))
                        (sym here_on)
                        (
                          o,
                          found,
                          (
                            t,
                            last,
                            loop-goes_on R r truth max_attempts fuel run chosen
                                  (goes ∙ ap some (if_false _ miss))
                                ∙ ends,
                            agrees,
                          ),
                        )
                ]
      ]

  start-IsFresh : IsFresh R r truth (start R)
  start-IsFresh = record { not_recovered = refl; no_hours = refl; no_violation = refl }

  run_record-Replays :
      Replays
        (oracle_recovers R r truth max_attempts)
        (run_record R r truth (truth_reader R r truth max_attempts) tt)
  unfolding run_record oracle_recovers
  run_record-Replays =
      slots_from-Replays (min max_attempts max_slots) (max_slots + 1) (start R) (omega arith)
        (omega arith) start-IsFresh

  -- If the sealed record has a draw, the row that `run_oracle` gives a record is the one that the
  -- harness gives a policy which reads the sealed truth and presents the best pair of each slot,
  -- `max_attempts` of them at most: the ceiling has a result, that run ends, and both rows have
  -- the same recovery, amount, charges, contacts, cost, hours and mandate violations.
  pub oracle_outcome-run_record :
      (o : OracleResult Real) × (oracle_recovers R r truth max_attempts ≡ some o)
      × (t : TerminalReason) × (run : Run Real) × (run_record R r truth
            (truth_reader R r truth max_attempts)
            tt
          ≡ some (t, run, tt))
      × SameRow (oracle_outcome R r truth o) (outcome_of R r truth o t run)
  unfolding oracle_outcome outcome_of cost_of
  oracle_outcome-run_record =
      let (o, result, (t, run, e, (found, charges, contacts, hours, violations))) =
        run_record-Replays in
      let (t', run', q, e', (books', settlement')) =
        run_record-Ends R r truth (truth_reader R r truth max_attempts) drawn
          (reader-Decides R r truth max_attempts) tt in
      let same : run' ≡ run = cc in
      let (books, settlement) : IsBalanced R r truth run × Settled R r truth t' run =
        subst (λ x. IsBalanced R r truth x × Settled R r truth t' x) same (books', settlement') in
      let amount : (if o.recovered then r.plan_amount_paise else 0) ≡ run.amount_recovered =
        elim settlement [
          | inl (is_here, full, reason, none_violated) ↦ rw (sym found ∙ is_here) (sym full)
          | inr (not_here, none_here, rest) ↦ rw (sym found ∙ not_here) (sym none_here)
        ] in
      (
        o,
        result,
        t,
        run,
        e,
        (
          sym found,
          amount,
          sym charges,
          sym contacts,
          omega (arith, books.paid, charges, contacts),
          sym hours,
          sym violations,
        ),
      )

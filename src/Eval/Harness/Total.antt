-- ===== src/Eval/Harness/Total.antt =====
-- `run_record` ends for every policy that does not raise, with its books in order.
use reclaim_os.Prelude.{ℕ, zero, suc, ◌+◌, ◌≤◌, ◌≡◌, refl, true, Option, none, some, arith, length}
use reclaim_os.Domain.Models.{SubscriptionRecord, Decision, TerminalReason}
use reclaim_os.Domain.Real.{Reals}
use reclaim_os.Generator.World.{WorldRecord, max_slots}
use reclaim_os.Generator.World.Draws.{has_draws}
use reclaim_os.Prelude.Dict.{is_some}
use reclaim_os.Policy.Config.{LoopState}
use reclaim_os.Eval.Harness.{Run, start, state_of, round, loop, run_record}
use reclaim_os.Eval.Harness.Accounts.{IsOpen, Ended, After, round-After}

-- The policy always decides.
abbrev pub Decides : {S Q D : Type 0} → (S → Q → Option (D × Q)) → Type 0
Decides {S} {Q} decide = (st : S) (q : Q) → is_some (decide st q) ≡ true

module _ (R : Reals) (r : SubscriptionRecord) (truth : WorldRecord R.Real) {Q : Type 0}
    (decide : LoopState R.Real → Q → Option (Decision R.Real × Q)) where
  -- The result of a run that ended.
  abbrev pub Ends : Option (TerminalReason × Run R.Real × Q) → Type 0
  Ends o =
      (t : TerminalReason) × (run : Run R.Real) × (q : Q) × (o ≡ some (t, run, q))
      × Ended R r truth t run

  module _ (drawn : has_draws truth ≡ true) (decides : Decides decide) where
    next :
        (fuel : ℕ) (run : Run R.Real) (q' : Q) (out : Option (Option TerminalReason × Run R.Real))
        → After R r truth run out
        → ((run' : Run R.Real)
            → IsOpen R r truth run'
            → length run'.history ≡ suc (length run.history)
            → Ends (loop R r truth decide fuel run' q'))
        → Ends (elim out [
          | none ↦ none
          | some (terminal, run') ↦ elim terminal [
            | some reason ↦ some (reason, run', q')
            | none ↦ loop R r truth decide fuel run' q'
          ]
        ])
    next fuel run q' none h rest = absurd (cc)
    next fuel run q' (some (some t, run')) h rest = (t, run', q', refl, h)
    next fuel run q' (some (none, run')) h rest = rest run' h.0 h.1

    decided :
        (fuel : ℕ) (run : Run R.Real) (o : Option (Decision R.Real × Q))
        → is_some o ≡ true
        → IsOpen R r truth run
        → ((run' : Run R.Real) (q' : Q)
            → IsOpen R r truth run'
            → length run'.history ≡ suc (length run.history)
            → Ends (loop R r truth decide fuel run' q'))
        → Ends (elim o [
          | none ↦ none
          | some (d, q') ↦ elim (round R r truth d run) [
            | none ↦ none
            | some (terminal, run') ↦ elim terminal [
              | some reason ↦ some (reason, run', q')
              | none ↦ loop R r truth decide fuel run' q'
            ]
          ]
        ])
    decided fuel run none e h rest = absurd (cc)
    decided fuel run (some (d, q')) e h rest =
        next fuel run q' (round R r truth d run) (round-After R r truth d run h)
          λ run'. rest run' q'

    loop-Ends :
        (fuel : ℕ) (run : Run R.Real) (q : Q)
        → IsOpen R r truth run
        → max_slots + 1 ≤ fuel + length run.history
        → Ends (loop R r truth decide fuel run q)
    unfolding loop
    loop-Ends zero run q h enough = absurd (omega (arith, h.books.capped))
    loop-Ends (suc fuel) run q h enough =
        decided fuel run (decide (state_of R r truth run) q) (decides (state_of R r truth run) q) h
          λ run' q' h' longer. loop-Ends fuel run' q' h' (omega (arith, longer))

    -- If the sealed record has a draw and the policy never raises, then whatever it decides and
    -- whatever the record, the loop ends. Its books then balance: the history has one entry for
    -- each charge and contact and at most eight in all, the cost is 200 for each charge and 50
    -- for each contact, and no more charges are marked as wasted than were made. The plan's
    -- amount is recovered in full, for the reason `recovered`, or nothing is; and at most one
    -- mandate violation is counted, which then is the reason of the end.
    pub run_record-Ends : (q : Q) → Ends (run_record R r truth decide q)
    unfolding run_record
    run_record-Ends q =
        loop-Ends (max_slots + 1) (start R) q
          (record {
            books = record {
              slots = refl;
              paid = refl;
              wasted = omega arith;
              capped = omega arith;
            };
            not_recovered = refl;
            no_amount = refl;
            no_violation = refl;
          })
          (omega arith)

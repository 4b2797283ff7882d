-- ===== src/Eval/Outcomes/Ceiling.antt =====
-- The ceiling of generator/outcome_model.py, replayed in the harness by a policy that reads the
-- truth. That policy is no part of the repository.
pub mod Rounds
pub mod Slots
pub mod Replay
use reclaim_os.Prelude.{
  ℕ, zero, suc, ◌+◌, ◌-◌, ◌*◌, ◌≤◌, ◌<◌, ◌≡◌, refl, sym, ap, ◌∙◌, subst, Bool, true, false, not,
  ◌&&◌, Option, none, some, List, [], ◌∷◌, ◌++◌, foldl, length, length-append, if_both, if_true,
  if_false, min, leb, le→leb, if◌then◌else◌, Bool-cases, Option-cases, inl, inr, arith, All,
  &&-true, get_or,
}
use reclaim_os.Prelude.Int.{pos}
use reclaim_os.Domain.Models.{
  SubscriptionRecord, ActionType, retry_charge, send_payment_link, request_card_update, stop,
  escalate_human, recovered, Decision, moves_money, permits, TerminalReason,
}
use reclaim_os.Domain.Real.{Reals, ltb as lt_real}
use reclaim_os.Generator.World.{
  WorldRecord, max_slots, recovery_window_hours, success_probability, resolve,
}
use reclaim_os.Generator.Oracle.{
  OracleResult, Best, oracle_actions, oracle_delay_grid, no_pair, is_allowed, consider, best_pair,
  slots_from, oracle_recovers,
}
use reclaim_os.Generator.Oracle.Greedy.{foldl_keeps, is_better, best_pair-IsPair}
use reclaim_os.Policy.Config.{LoopState}
use reclaim_os.Eval.Harness.{
  Run, start, state_of, note_decision, booked, settled, present, envelope, act_on, round, loop,
  run_record, cost_of, charge_attempt_cost, contact_cost,
}
use reclaim_os.Eval.Harness.Total.{run_record-Ends}
use reclaim_os.Eval.Outcomes.{RecordOutcome, outcome_of, oracle_outcome}
use reclaim_os.Eval.Harness.Accounts.{is_presented, IsBalanced, Settled}

module _ (R : Reals) (r : SubscriptionRecord) (truth : WorldRecord R.Real) where
  open R use {Real, lit, add}

  module _ (elapsed : Real) (charges contacts : ℕ) where
    -- The search, with the delay of the best pair kept beside it.
    abbrev tracked : ActionType → Best Real × Real → Real → Best Real × Real
    tracked a (best, kept) delay = (
      consider R r truth elapsed charges contacts a best delay,
      if is_better R r truth elapsed charges contacts best a delay then delay else kept,
    )

    abbrev tracked_action : Best Real × Real → ActionType → Best Real × Real
    tracked_action best a = foldl (tracked a) best (oracle_delay_grid R)

    unfoldable pub tracked_pair : Best Real × Real
    tracked_pair = foldl tracked_action (no_pair R, lit 0 1) oracle_actions

    foldl_first {ℓ} :
        {A : Type ℓ} (f : Best Real → A → Best Real) (g : Best Real × Real → A → Best Real × Real)
        → ((b : Best Real × Real) (x : A) → (g b x).0 ≡ f b.0 x)
        → (b : Best Real × Real) (xs : List A) → (foldl g b xs).0 ≡ foldl f b.0 xs
    foldl_first f g h b [] = refl
    foldl_first f g h b (x ∷ xs) = foldl_first f g h (g b x) xs ∙ ap (λ c. foldl f c xs) (h b x)

    pub tracked_pair-best_pair : tracked_pair.0 ≡ best_pair R r truth elapsed charges contacts
    unfolding tracked_pair best_pair
    tracked_pair-best_pair =
        foldl_first
          (λ best a.
            foldl (consider R r truth elapsed charges contacts a) best (oracle_delay_grid R))
          tracked_action
          (λ b a.
            foldl_first (consider R r truth elapsed charges contacts a) (tracked a)
              (λ c delay. refl) b (oracle_delay_grid R))
          (no_pair R, lit 0 1) oracle_actions

    -- The kept delay leads to the time of the best pair, whose action is one of the grid's.
    abbrev pub Leads : Best Real × Real → Type 0
    Leads (best, kept) = elim best.action [
      | none ↦ Unit
      | some a ↦ (best.t ≡ add elapsed kept) × (is_presented a ≡ true)
    ]

    tracked-Leads :
        (a : ActionType)
        → is_presented a ≡ true
        → (b : Best Real × Real) (delay : Real) → Leads b
        → Leads (tracked a b delay)
    unfolding consider
    tracked-Leads a k b delay h =
        elim (Bool-cases (is_better R r truth elapsed charges contacts b.0 a delay)) [
          | inl e ↦ rw e (refl, k)
          | inr e ↦ rw e h
        ]

    tracked_action-Leads :
        (a : ActionType)
        → is_presented a ≡ true
        → (b : Best Real × Real) → Leads b
        → Leads (tracked_action b a)
    tracked_action-Leads a k b h =
        foldl_keeps Leads (tracked a) (tracked-Leads a k) b (oracle_delay_grid R) h

    pub tracked_pair-Leads : Leads tracked_pair
    unfolding tracked_pair
    tracked_pair-Leads = tracked_action-Leads request_card_update refl _ (
        tracked_action-Leads send_payment_link refl _
          (tracked_action-Leads retry_charge refl (no_pair R, lit 0 1) tt))

  unfoldable pub reader_decision : ActionType → Real → LoopState Real → Decision Real
  reader_decision a delay s = record {
    subscription_id = r.subscription_id;
    attempt_no = s.slot + 1;
    action = a;
    delay_hours = delay;
    rule_id = [];
    propensity = lit 0 1;
    predicted_recoverable = true;
    rationale = [];
    stop_reason = none;
  }

  module _ (max_attempts : ℕ) where
    -- In each slot the best pair, if there is one; else STOP.
    unfoldable pub truth_reader : LoopState Real → Unit {0} → Option (Decision Real × Unit {0})
    truth_reader s q =
        let (best, delay) = tracked_pair s.elapsed_hours s.charge_attempts s.contact_actions in
        some (
          if leb (min max_attempts max_slots) s.slot
              then reader_decision stop (lit 0 1) s
              else elim best.action [
                | none ↦ reader_decision stop (lit 0 1) s
                | some a ↦ reader_decision a delay s
              ],
          q,
        )

-- ===== src/Eval/Baselines/Budgets.antt =====
-- Any policy that looks at its counters before it acts keeps its budget in the harness.
use reclaim_os.Prelude.{ℕ, ◌+◌, ◌*◌, ◌≤◌, ◌<◌, ◌≡◌, Option, none, some}
use reclaim_os.Domain.Models.{
  SubscriptionRecord, ActionType, retry_charge, send_payment_link, request_card_update,
  escalate_human, stop, Decision, TerminalReason,
}
use reclaim_os.Domain.Real.{Reals}
use reclaim_os.Generator.World.{WorldRecord}
use reclaim_os.Policy.Config.{LoopState}
use reclaim_os.Eval.Harness.{Run, run_record, charge_attempt_cost, contact_cost}

-- The action leaves both counters within the budgets.
abbrev Fits : ℕ → ℕ → ℕ → ℕ → ActionType → Type 0
Fits n m charges contacts retry_charge = charges < n
Fits n m charges contacts send_payment_link = contacts < m
Fits n m charges contacts request_card_update = contacts < m
Fits n m charges contacts escalate_human = Unit
Fits n m charges contacts stop = Unit

module _ (R : Reals) (r : SubscriptionRecord) (truth : WorldRecord R.Real) (n m : ℕ) where
  -- At most `n` charges and `m` contacts.
  abbrev Spent : Run R.Real → Type 0
  Spent run = (run.charge_attempts ≤ n) × (run.contact_actions ≤ m)

  abbrev SpentAfter : Option (Option TerminalReason × Run R.Real) → Type 0
  SpentAfter none = Unit
  SpentAfter (some (t, run)) = Spent run

  module _ (decide : LoopState R.Real → Decision R.Real) where
    -- A policy without a state.
    abbrev pub stateless : LoopState R.Real → Unit {0} → Option (Decision R.Real × Unit {0})
    stateless st q = some (decide st, q)

    module _
        (frugal : (st : LoopState R.Real)
          → Fits n m st.charge_attempts st.contact_actions (decide st).action) where
      abbrev SpentAtEnd : Option (TerminalReason × Run R.Real × Unit {0}) → Type 0
      SpentAtEnd none = Unit
      SpentAtEnd (some (t, run, q)) = Spent run

module _ (R : Reals) (r : SubscriptionRecord) (truth : WorldRecord R.Real) where
  -- A policy's run in the harness ends, with at most so many charges and contacts, and costs at
  -- most what these cost.
  abbrev pub RunsWithin : ℕ → ℕ → (LoopState R.Real → Decision R.Real) → Type 0
  RunsWithin n m decide =
      (t : TerminalReason) × (run : Run R.Real) × (run_record R r truth
          (λ st q. some (decide st, q)) (tt {0})
        ≡ some (t, run, tt))
      × (run.charge_attempts ≤ n)
      × (run.contact_actions ≤ m)
      × (run.cost ≤ charge_attempt_cost * n + contact_cost * m)

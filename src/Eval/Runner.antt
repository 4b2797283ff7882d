-- ===== src/Eval/Runner.antt =====
-- src/reclaimos/eval/runner.py: `evaluate`, from records and world that are already read. A policy
-- is an object with a state of its own. none is the exception
-- that ends the evaluation: a KeyError, or one of a run.
pub mod Rows
pub mod Complete
use mathlib.Core.Option.{map as map_option}
use reclaim_os.Prelude.{ℕ, Text, codes, Option, none, some, List, [], ◌∷◌, ◌++◌}
use reclaim_os.Prelude.Dict.{Dict, insert}
use reclaim_os.Domain.Models.{SubscriptionRecord, Decision}
use reclaim_os.Domain.Real.{Reals}
use reclaim_os.Generator.World.{WorldRecord}
use reclaim_os.Generator.Oracle.{OracleResult}
use reclaim_os.Policy.Config.{LoopState}
use reclaim_os.Eval.Outcomes.{RecordOutcome, compute_oracles, run_policy, run_oracle}
use reclaim_os.Eval.Metrics.{PolicyMetrics, compute}
use reclaim_os.Eval.Metrics.Listing.{ExceptionRow, exceptions}

-- A policy before its first decision.
pub record Policy (Real : Type 0) : Type 1 where
  pub name : Text
  pub description : Text
  pub State : Type 0
  pub initial : State
  pub decide : LoopState Real → State → Option (Decision Real × State)

abbrev pub oracle_name : Text
oracle_name = codes "oracle_ceiling"

abbrev pub oracle_description : Text
oracle_description = codes "Ceiling estimate — reads sealed truth, not a policy"

-- `_values`
unfoldable pub values_from : List SubscriptionRecord → Dict ℕ → Dict ℕ
values_from [] d = d
values_from (r ∷ rs) d = values_from rs (insert r.subscription_id r.plan_amount_paise d)

-- `collected` and `exception_rows`
pub record Collected (Real : Type 0) : Type 0 where
  pub metrics : List (PolicyMetrics Real)
  pub exception_rows : Dict (List ExceptionRow)

module _ (R : Reals) (randrange : ℕ → ℕ → ℕ) (world : Dict (WorldRecord R.Real)) (attempts : ℕ)
    (records : List SubscriptionRecord) where
  open R use {Real}

  -- One policy's outcomes, put into the two collections.
  unfoldable pub collect :
      Text → Text → List (RecordOutcome Real) → Collected Real → Option (Collected Real)
  collect title description outcomes so_far =
      let values = values_from records [] in
      map_option
        (λ m. record {
          metrics = so_far.metrics ++ m ∷ [];
          exception_rows = insert title (exceptions outcomes values) so_far.exception_rows;
        })
        (compute R randrange title description outcomes values)

  -- `for policy in chosen`
  unfoldable pub collect_policies :
      Dict (OracleResult Real) → List (Policy Real) → Collected Real → Option (Collected Real)
  collect_policies oracles [] so_far = some so_far
  collect_policies oracles (p ∷ ps) so_far =
      elim (run_policy R world attempts p.decide (some oracles) records p.initial) [
        | none ↦ none
        | some (outcomes, last) ↦ elim (collect p.name p.description outcomes so_far) [
          | none ↦ none
          | some next ↦ collect_policies oracles ps next
        ]
      ]

  unfoldable pub collect_oracle :
      Dict (OracleResult Real) → Collected Real → Option (Collected Real)
  collect_oracle oracles so_far = elim (run_oracle R world attempts (some oracles) records) [
    | none ↦ none
    | some outcomes ↦ collect oracle_name oracle_description outcomes so_far
  ]

  unfoldable pub evaluate : List (Policy Real) → Option (Collected Real)
  evaluate policies = elim (compute_oracles R world attempts records) [
    | none ↦ none
    | some oracles ↦
        elim (collect_policies oracles policies (record { metrics = []; exception_rows = [] })) [
          | none ↦ none
          | some so_far ↦ collect_oracle oracles so_far
        ]
  ]

-- ===== src/Eval/Runner/Complete.antt =====
-- `evaluate` scores every policy and the ceiling on every record.
use reclaim_os.Prelude.{
  ℕ, ◌+◌, ◌≡◌, refl, sym, ap, ◌∙◌, subst, arith, Text, Option, some, List, [], ◌∷◌, ◌++◌, length,
  length-append, All, All-append,
}
use reclaim_os.Prelude.Dict.{Dict, insert}
use reclaim_os.Domain.Models.{SubscriptionRecord}
use reclaim_os.Domain.Real.{Reals}
use reclaim_os.Generator.World.{WorldRecord}
use reclaim_os.Generator.Oracle.{OracleResult}
use reclaim_os.Eval.Harness.Total.{Decides}
use reclaim_os.Eval.Outcomes.{RecordOutcome, compute_oracles, run_policy}
use reclaim_os.Eval.Metrics.{PolicyMetrics, compute}
use reclaim_os.Eval.Metrics.Totals.{compute-IsBalanced, total}
use reclaim_os.Eval.Metrics.Listing.{exceptions}
use reclaim_os.Eval.Runner.{
  Policy, oracle_name, oracle_description, values_from, Collected, collect, collect_policies,
  collect_oracle, evaluate,
}
use reclaim_os.Eval.Runner.Rows.{
  Known, Drawn, ids, length-map, outcome_ids, oracles_from-keeps, run_oracle-rows, run_policy-rows,
  outcomes-Known, values_from-Known,
}

-- The metrics of n records: each is counted, predicted, classed and ended once.
pub record IsComplete {Real : Type 0} (n : ℕ) (m : PolicyMetrics Real) : Type 0 where
  pub counted : m.n ≡ n
  pub predictions : m.confusion.tp + m.confusion.fp + m.confusion.tn + m.confusion.fn ≡ n
  pub classes : total (λ v. v.1) m.by_class ≡ n
  pub reasons : total (λ v. v) m.by_terminal ≡ n

module _ (R : Reals) (randrange : ℕ → ℕ → ℕ) (world : Dict (WorldRecord R.Real)) (attempts : ℕ)
    (records : List SubscriptionRecord) where
  collect-step :
      (title description : Text) (os : List (RecordOutcome R.Real)) (so_far : Collected R.Real)
      {m : PolicyMetrics R.Real}
      → compute R randrange title description os (values_from records []) ≡ some m
      → collect R randrange world attempts records title description os so_far
        ≡ some (record {
          metrics = so_far.metrics ++ m ∷ [];
          exception_rows =
              insert title (exceptions os (values_from records [])) so_far.exception_rows;
        })
  unfolding collect
  collect-step title description os so_far e = rw (e, collect) refl

  -- The rows of all records are collected.
  abbrev Grown : ℕ → Collected R.Real → Option (Collected R.Real) → Type 0
  Grown k so_far out =
      (next : Collected R.Real) × (out ≡ some next)
      × (length next.metrics ≡ length so_far.metrics + k)
      × All (IsComplete (length records)) next.metrics

  collect-Grown :
      (title description : Text) (os : List (RecordOutcome R.Real)) (so_far : Collected R.Real)
      → outcome_ids os ≡ ids records
      → All (IsComplete (length records)) so_far.metrics
      → Grown 1 so_far (collect R randrange world attempts records title description os so_far)
  collect-Grown title description os so_far same complete =
      let values = values_from records [] in
      let known : Known values (outcome_ids os) =
        subst (Known values) (sym same) (values_from-Known records []) in
      let (m, computed, b) =
        compute-IsBalanced R randrange title description os values
          (outcomes-Known values os known) in
      let size : length os ≡ length records =
        sym (length-map (λ o. o.subscription_id) os)
        ∙ ap length same
        ∙ length-map (λ r. r.subscription_id) records in
      let one : IsComplete (length records) m = record {
        counted = b.counted ∙ size;
        predictions = b.predictions ∙ size;
        classes = b.classes ∙ size;
        reasons = b.reasons ∙ size;
      } in
      (
        record {
          metrics = so_far.metrics ++ m ∷ [];
          exception_rows = insert title (exceptions os values) so_far.exception_rows;
        },
        collect-step title description os so_far computed,
        length-append so_far.metrics (m ∷ []),
        All-append (IsComplete (length records)) so_far.metrics (m ∷ []) complete (one, tt),
      )

  policies-step :
      (oracles : Dict (OracleResult R.Real)) (p : Policy R.Real) (ps : List (Policy R.Real))
      (so_far : Collected R.Real) {os : List (RecordOutcome R.Real)} {last : p.State}
      {next : Collected R.Real}
      → run_policy R world attempts p.decide (some oracles) records p.initial ≡ some (os, last)
      → collect R randrange world attempts records p.name p.description os so_far ≡ some next
      → collect_policies R randrange world attempts records oracles (p ∷ ps) so_far
        ≡ collect_policies R randrange world attempts records oracles ps next
  unfolding collect_policies
  policies-step oracles p ps so_far e f = rw (e, collect_policies) (rw f refl)

  module _ (drawn_world : Drawn world (ids records)) where
    policies-Grown :
        (oracles : Dict (OracleResult R.Real)) (ps : List (Policy R.Real))
        (so_far : Collected R.Real)
        → All (λ p. Decides p.decide) ps
        → Known oracles (ids records)
        → All (IsComplete (length records)) so_far.metrics
        → Grown
            (length ps)
            so_far
            (collect_policies R randrange world attempts records oracles ps so_far)
    unfolding collect_policies
    policies-Grown oracles [] so_far ds k complete = (so_far, refl, omega arith, complete)
    policies-Grown oracles (p ∷ ps) so_far ds k complete =
        let (os, last, e, same) =
          run_policy-rows R world attempts p.decide ds.0 oracles records p.initial drawn_world k in
        let (next, f, one_more, complete') =
          collect-Grown p.name p.description os so_far same complete in
        let (end, g, more, done) = policies-Grown oracles ps next ds.1 k complete' in
        (end, policies-step oracles p ps so_far e f ∙ g, omega (arith, one_more, more), done)

    oracle-Grown :
        (oracles : Dict (OracleResult R.Real)) (so_far : Collected R.Real)
        → Known oracles (ids records)
        → All (IsComplete (length records)) so_far.metrics
        → Grown 1 so_far (collect_oracle R randrange world attempts records oracles so_far)
    unfolding collect_oracle
    oracle-Grown oracles so_far k complete =
        let (os, e, same) = run_oracle-rows R world attempts oracles records drawn_world k in
        let (next, f, more, done) =
          collect-Grown oracle_name oracle_description os so_far same complete in
        (next, rw (e, collect_oracle) f, more, done)

    evaluate-step :
        (ps : List (Policy R.Real)) {oracles : Dict (OracleResult R.Real)}
        {so_far end : Collected R.Real}
        → compute_oracles R world attempts records ≡ some oracles
        → collect_policies R randrange world attempts records oracles ps
            (record { metrics = []; exception_rows = [] })
          ≡ some so_far
        → collect_oracle R randrange world attempts records oracles so_far ≡ some end
        → evaluate R randrange world attempts records ps ≡ some end
    unfolding evaluate
    evaluate-step ps e f g = rw (e, evaluate) (rw f g)

    -- If the world has every record, each with a draw, then for every list of policies that never
    -- raise the evaluation completes: it has a metric set for each policy, whatever it decides,
    -- and one for the ceiling, and in each set every record is counted once among the rows, the
    -- predictions, the classes and the terminal reasons.
    pub evaluate-IsComplete :
        (policies : List (Policy R.Real))
        → All (λ p. Decides p.decide) policies
        → (end : Collected R.Real) × (evaluate R randrange world attempts records policies
            ≡ some end)
          × (length end.metrics ≡ length policies + 1)
          × All (IsComplete (length records)) end.metrics
    unfolding compute_oracles
    evaluate-IsComplete policies decides =
        let (oracles, e, kept, known) =
          oracles_from-keeps R world attempts records [] drawn_world in
        let (so_far, f, scored, complete) =
          policies-Grown oracles policies (record { metrics = []; exception_rows = [] }) decides
            known tt in
        let (end, g, one_more, all_complete) = oracle-Grown oracles so_far known complete in
        (end, evaluate-step policies e f g, omega (arith, scored, one_more), all_complete)

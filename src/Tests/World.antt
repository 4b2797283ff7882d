-- ===== src/Tests/World.antt =====
-- The ceiling, the rows of a split and the synthetic subscriptions.
use reclaim_os.Prelude.{
  ℕ, suc, arith, ◌+◌, ◌≡◌, codes, true, refl, some, List, [], ◌∷◌, length, count, min, All,
}
use reclaim_os.Domain.Models.{SubscriptionRecord, TerminalReason, same_method, upi_autopay}
use reclaim_os.Generator.World.{WorldRecord}
use reclaim_os.Generator.Oracle.{OracleResult, best_pair, oracle_recovers}
use reclaim_os.Generator.Oracle.Greedy.Choice.{HasBounds, Unbeaten, Answers, best_pair-greedy}
use reclaim_os.Domain.Real.{Reals, IsOrdered}
use reclaim_os.Generator.Population.{generate, split_records}
use reclaim_os.Generator.Population.Consistent.{IsConsistent, returned, generate-pairs}
use reclaim_os.Generator.Population.Split.{leb_hash, split_records-parts}
use reclaim_os.Eval.Harness.{Run, run_record}
use reclaim_os.Eval.Outcomes.{oracle_outcome, outcome_of}
use reclaim_os.Eval.Outcomes.Ceiling.{truth_reader}
use reclaim_os.Eval.Outcomes.Ceiling.Replay.{SameRow, oracle_outcome-run_record}
use reclaim_os.Tests.Fixtures.{
  fixed_point, calendar, subscription, world, counting, counting-IsRandom, sha,
}

-- The same numbers above a number for -1.0.
abbrev shifted : Reals
shifted = record fixed_point { lit = λ n d. suc (fixed_point.lit n d) }

shifted-IsOrdered : IsOrdered shifted
shifted-IsOrdered = record {
  total = λ a b. ground arith;
  trans = λ a b c h k. ground arith;
  round4_mono = λ a b h. h;
  round4_zero = refl;
  round4_one = refl;
  not-one-le-zero = refl;
  zero-le-one = refl;
}

shifted-HasBounds : HasBounds shifted
shifted-HasBounds = record { zero-le-cap = refl; not-zero-le-initial = refl }

best_pair-greedy_example :
    let best = best_pair shifted subscription world 0 0 0 in
    Unbeaten shifted subscription world 0 0 0 shifted-IsOrdered shifted-HasBounds best
    × Answers shifted subscription world 0 0 0 shifted-IsOrdered shifted-HasBounds best.action best
best_pair-greedy_example =
    best_pair-greedy shifted subscription world 0 0 0 shifted-IsOrdered shifted-HasBounds

oracle_outcome-run_record_example :
    (o : OracleResult ℕ) × (oracle_recovers fixed_point subscription world 3 ≡ some o)
    × (t : TerminalReason) × (run : Run ℕ) × (run_record fixed_point subscription world
          (truth_reader fixed_point subscription world 3)
          tt
        ≡ some (t, run, tt))
    × SameRow
        (oracle_outcome fixed_point subscription world o)
        (outcome_of fixed_point subscription world o t run)
oracle_outcome-run_record_example = oracle_outcome-run_record fixed_point subscription world 3 refl

generate-pairs_example :
    (pairs : List (SubscriptionRecord × WorldRecord ℕ)) × (length pairs ≡ 3)
    × All (IsConsistent fixed_point calendar counting) pairs
    × (generate fixed_point calendar counting 3 7 ≡ returned pairs [])
generate-pairs_example = generate-pairs fixed_point calendar counting counting-IsRandom 3 7

abbrev second : SubscriptionRecord
second = record subscription { subscription_id = codes "sub_2" }

split_records-parts_example :
    let (train, test) = split_records sha (λ n. 1) (subscription ∷ (second ∷ [])) in
    (length test ≡ min 1 2)
    × (count (λ r. same_method r.method upi_autopay) train
          + count (λ r. same_method r.method upi_autopay) test
        ≡ count (λ r. same_method r.method upi_autopay) (subscription ∷ (second ∷ [])))
    × All (λ a. All (λ b. leb_hash sha a b ≡ true) train) test
split_records-parts_example =
    split_records-parts sha (λ n. 1) (subscription ∷ (second ∷ []))
      (λ r. same_method r.method upi_autopay)

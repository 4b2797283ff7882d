-- ===== src/Eval/Runner/Rows.antt =====
-- The rows that a policy and the ceiling get for a split, and the dicts by id behind them.
use reclaim_os.Prelude.{
  ℕ, ◌≡◌, refl, ap, ◌∙◌, arith, Text, text_eq, text_eq_refl, Bool, true, false, Option, none, some,
  List, [], ◌∷◌, map, length, All, if_both,
}
use reclaim_os.Prelude.Dict.{Dict, lookup, insert, lookup-insert, is_some, is_some-value}
use reclaim_os.Domain.Models.{SubscriptionRecord, Decision, TerminalReason}
use reclaim_os.Domain.Real.{Reals}
use reclaim_os.Generator.World.{WorldRecord}
use reclaim_os.Generator.Oracle.{OracleResult, oracle_recovers}
use reclaim_os.Policy.Config.{LoopState}
use reclaim_os.Eval.Harness.{Run, run_record}
use reclaim_os.Eval.Harness.Total.{Decides, run_record-Ends}
use reclaim_os.Eval.Outcomes.Ceiling.Replay.{oracle_outcome-run_record}
use reclaim_os.Generator.World.Draws.{has_draws}
use reclaim_os.Eval.Outcomes.{
  RecordOutcome, outcome_of, oracle_outcome, oracles_from, oracle_for, run_policy, run_oracle,
}
use reclaim_os.Eval.Runner.{values_from}

-- Every key has an entry.
abbrev pub Known : {V : Type 0} → Dict V → List Text → Type 0
Known d ks = All (λ k. is_some (lookup k d) ≡ true) ks

-- The record is there, and has a draw.
abbrev pub is_drawn : {Real : Type 0} → Option (WorldRecord Real) → Bool
is_drawn none = false
is_drawn (some truth) = has_draws truth

-- The world has every record, each with a draw.
abbrev pub Drawn : {Real : Type 0} → Dict (WorldRecord Real) → List Text → Type 0
Drawn world ks = All (λ k. is_drawn (lookup k world) ≡ true) ks

is_drawn-record :
    {Real : Type 0} (o : Option (WorldRecord Real))
    → is_drawn o ≡ true
    → (truth : WorldRecord Real) × (o ≡ some truth) × (has_draws truth ≡ true)
is_drawn-record none h = absurd (cc)
is_drawn-record (some truth) h = (truth, refl, h)

abbrev pub ids : List SubscriptionRecord → List Text
ids = map (λ r. r.subscription_id)

abbrev pub outcome_ids : {Real : Type 0} → List (RecordOutcome Real) → List Text
outcome_ids = map (λ o. o.subscription_id)

module _ {V : Type 0} where
  insert-keeps :
      (k j : Text) (v : V) (d : Dict V)
      → is_some (lookup j d) ≡ true
      → is_some (lookup j (insert k v d)) ≡ true
  insert-keeps k j v d h =
      ap is_some (lookup-insert k j v d)
      ∙ if_both (λ o. is_some o ≡ true) (text_eq k j) (λ e. refl) λ e. h

  insert-finds : (k : Text) (v : V) (d : Dict V) → is_some (lookup k (insert k v d)) ≡ true
  insert-finds k v d = ap is_some (lookup-insert k k v d) ∙ rw (text_eq_refl k) refl

values_from-keeps :
    (rs : List SubscriptionRecord) (d : Dict ℕ) (j : Text)
    → is_some (lookup j d) ≡ true
    → is_some (lookup j (values_from rs d)) ≡ true
unfolding values_from
values_from-keeps [] d j h = h
values_from-keeps (r ∷ rs) d j h =
    values_from-keeps rs (insert r.subscription_id r.plan_amount_paise d) j
      (insert-keeps r.subscription_id j r.plan_amount_paise d h)

pub values_from-Known :
    (rs : List SubscriptionRecord) (d : Dict ℕ) → Known (values_from rs d) (ids rs)
unfolding values_from
values_from-Known [] d = tt
values_from-Known (r ∷ rs) d = (
  values_from-keeps rs (insert r.subscription_id r.plan_amount_paise d) r.subscription_id
      (insert-finds r.subscription_id r.plan_amount_paise d),
  values_from-Known rs (insert r.subscription_id r.plan_amount_paise d),
)

pub length-map : {A : Type 0} {B : Type 0} (f : A → B) (xs : List A) → length (map f xs) ≡ length xs
length-map f [] = refl
length-map f (x ∷ xs) = omega (arith, length-map f xs)

pub outcomes-Known :
    {V Real : Type 0} (d : Dict V) (os : List (RecordOutcome Real))
    → Known d (outcome_ids os)
    → All (λ o. is_some (lookup o.subscription_id d) ≡ true) os
outcomes-Known d [] h = tt
outcomes-Known d (o ∷ os) h = (h.0, outcomes-Known d os h.1)

module _ (R : Reals) (world : Dict (WorldRecord R.Real)) (attempts : ℕ) where
  oracles_from-step :
      (r : SubscriptionRecord) (rs : List SubscriptionRecord) (done : Dict (OracleResult R.Real))
      {truth : WorldRecord R.Real} {oracle : OracleResult R.Real}
      → lookup r.subscription_id world ≡ some truth
      → oracle_recovers R r truth attempts ≡ some oracle
      → oracles_from R world attempts (r ∷ rs) done
        ≡ oracles_from R world attempts rs (insert r.subscription_id oracle done)
  unfolding oracles_from
  oracles_from-step r rs done e f = rw (e, oracles_from) (rw f refl)

  run_oracle-step :
      (oracles : Dict (OracleResult R.Real)) (r : SubscriptionRecord) (rs : List SubscriptionRecord)
      {truth : WorldRecord R.Real} {oracle : OracleResult R.Real}
      {rows : List (RecordOutcome R.Real)}
      → lookup r.subscription_id world ≡ some truth
      → lookup r.subscription_id oracles ≡ some oracle
      → run_oracle R world attempts (some oracles) rs ≡ some rows
      → run_oracle R world attempts (some oracles) (r ∷ rs)
        ≡ some (oracle_outcome R r truth oracle ∷ rows)
  unfolding run_oracle oracle_for
  run_oracle-step oracles r rs e f g = rw (e, run_oracle) (rw f (rw g refl))

  module _ {Q : Type 0} (decide : LoopState R.Real → Q → Option (Decision R.Real × Q)) where
    run_policy-step :
        (oracles : Dict (OracleResult R.Real)) (r : SubscriptionRecord)
        (rs : List SubscriptionRecord) (q : Q) {truth : WorldRecord R.Real}
        {oracle : OracleResult R.Real} {t : TerminalReason} {run : Run R.Real} {q' last : Q}
        {rows : List (RecordOutcome R.Real)}
        → lookup r.subscription_id world ≡ some truth
        → lookup r.subscription_id oracles ≡ some oracle
        → run_record R r truth decide q ≡ some (t, run, q')
        → run_policy R world attempts decide (some oracles) rs q' ≡ some (rows, last)
        → run_policy R world attempts decide (some oracles) (r ∷ rs) q
          ≡ some (outcome_of R r truth oracle t run ∷ rows, last)
    unfolding run_policy oracle_for
    run_policy-step oracles r rs q e f g h = rw (e, run_policy) (rw f (rw g (rw h refl)))

  pub oracles_from-keeps :
      (rs : List SubscriptionRecord) (done : Dict (OracleResult R.Real))
      → Drawn world (ids rs)
      → (out : Dict (OracleResult R.Real)) × (oracles_from R world attempts rs done ≡ some out)
        × ((j : Text) → is_some (lookup j done) ≡ true → is_some (lookup j out) ≡ true)
        × Known out (ids rs)
  unfolding oracles_from
  oracles_from-keeps [] done h = (done, refl, (λ j k. k), tt)
  oracles_from-keeps (r ∷ rs) done h =
      let (truth, found, drawn) = is_drawn-record (lookup r.subscription_id world) h.0 in
      let (oracle, result, t, run, ends, same_row) =
        oracle_outcome-run_record R r truth attempts drawn in
      let (out, e, keeps, known) =
        oracles_from-keeps rs (insert r.subscription_id oracle done) h.1 in
      (
        out,
        oracles_from-step r rs done found result ∙ e,
        λ j k. keeps j (insert-keeps r.subscription_id j oracle done k),
        (keeps r.subscription_id (insert-finds r.subscription_id oracle done), known),
      )

  pub run_oracle-rows :
      (oracles : Dict (OracleResult R.Real)) (rs : List SubscriptionRecord)
      → Drawn world (ids rs)
      → Known oracles (ids rs)
      → (rows : List (RecordOutcome R.Real)) × (run_oracle R world attempts (some oracles) rs
          ≡ some rows)
        × (outcome_ids rows ≡ ids rs)
  unfolding run_oracle oracle_for oracle_outcome
  run_oracle-rows oracles [] h k = ([], refl, refl)
  run_oracle-rows oracles (r ∷ rs) h k =
      let (truth, found, drawn) = is_drawn-record (lookup r.subscription_id world) h.0 in
      let (oracle, known) = is_some-value (lookup r.subscription_id oracles) k.0 in
      let (rows, e, same) = run_oracle-rows oracles rs h.1 k.1 in
      (
        oracle_outcome R r truth oracle ∷ rows,
        run_oracle-step oracles r rs found known e,
        ap (◌∷◌ r.subscription_id) same,
      )

  pub run_policy-rows :
      {Q : Type 0} (decide : LoopState R.Real → Q → Option (Decision R.Real × Q))
      → Decides decide
      → (oracles : Dict (OracleResult R.Real)) (rs : List SubscriptionRecord) (q : Q)
      → Drawn world (ids rs)
      → Known oracles (ids rs)
      → (rows : List (RecordOutcome R.Real)) × (last : Q) × (run_policy R world attempts decide
            (some oracles)
            rs
            q
          ≡ some (rows, last))
        × (outcome_ids rows ≡ ids rs)
  unfolding run_policy oracle_for outcome_of
  run_policy-rows decide decides oracles [] q h k = ([], q, refl, refl)
  run_policy-rows decide decides oracles (r ∷ rs) q h k =
      let (truth, found, drawn) = is_drawn-record (lookup r.subscription_id world) h.0 in
      let (oracle, known) = is_some-value (lookup r.subscription_id oracles) k.0 in
      let (t, run, q', ends, books) = run_record-Ends R r truth decide drawn decides q in
      let (rows, last, e, same) = run_policy-rows decide decides oracles rs q' h.1 k.1 in
      (
        outcome_of R r truth oracle t run ∷ rows,
        last,
        run_policy-step decide oracles r rs q found known ends e,
        ap (◌∷◌ r.subscription_id) same,
      )

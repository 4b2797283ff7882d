-- ===== src/Eval/Metrics/Totals.antt =====
-- The counts of a metric set add up.
use reclaim_os.Prelude.{
  ℕ, ◌+◌, ◌≤◌, ◌≡◌, refl, inl, inr, arith, Text, Bool, true, false, not, ◌&&◌, some, List, [], ◌∷◌,
  length, keep, count, sum, map, foldl, All, if◌then◌else◌, Bool-cases, count≤length, text_eq,
}
use reclaim_os.Prelude.Dict.{Dict, lookup, insert, or_default, is_some, is_some-value}
use reclaim_os.Prelude.Sorting.{sort-sum}
use reclaim_os.Domain.Declines.{name}
use reclaim_os.Domain.Real.{Reals}
use reclaim_os.Eval.Outcomes.{RecordOutcome}
use reclaim_os.Eval.Metrics.{
  PolicyMetrics, sum_values, count_class, count_terminal, is_escalated, leb_key, metrics_of,
  compute, terminal_value,
}

indicators :
    (p q : Bool)
    → (if p && q then 1 else 0)
        + (if p && not q then 1 else 0)
        + (if not p && not q then 1 else 0)
        + (if not p && q then 1 else 0)
      ≡ 1
indicators true true = refl
indicators true false = refl
indicators false true = refl
indicators false false = refl

count_four :
    {A : Type 0} (p q : A → Bool) (xs : List A)
    → count (λ x. p x && q x) xs
        + count (λ x. p x && not (q x)) xs
        + count (λ x. not (p x) && not (q x)) xs
        + count (λ x. not (p x) && q x) xs
      ≡ length xs
count_four p q [] = refl
count_four p q (x ∷ xs) = omega (arith, indicators (p x) (q x), count_four p q xs)

sum-keep :
    {A : Type 0} (p : A → Bool) (w : A → ℕ) (xs : List A) → sum (map w (keep p xs)) ≤ sum (map w xs)
sum-keep p w [] = omega arith
sum-keep p w (x ∷ xs) = elim (Bool-cases (p x)) [
  | inl e ↦ rw e (omega (arith, sum-keep p w xs))
  | inr e ↦ rw e (omega (arith, sum-keep p w xs))
]

module _ {V : Type 0} (w : V → ℕ) where
  abbrev pub total : Dict V → ℕ
  total d = sum (map (λ e. w e.1) d)

  total-insert :
      (key : Text) (v absent : V) (d : Dict V)
      → w absent ≡ 0
      → total (insert key v d) + w (or_default (lookup key d) absent) ≡ total d + w v
  unfolding insert lookup
  total-insert key v absent [] h = omega (arith, h)
  total-insert key v absent ((j, x) ∷ d) h = elim (Bool-cases (text_eq j key)) [
    | inl e ↦ rw e (omega arith)
    | inr e ↦ rw e (omega (arith, total-insert key v absent d h))
  ]

module _ {Real : Type 0} where
  terminal-total :
      (d : Dict ℕ) (os : List (RecordOutcome Real))
      → total (λ n. n) (foldl count_terminal d os) ≡ total (λ n. n) d + length os
  unfolding count_terminal
  terminal-total d [] = omega arith
  terminal-total d (o ∷ os) =
      let key = terminal_value o.terminal_reason in
      omega (
        arith,
        terminal-total (count_terminal d o) os,
        total-insert (λ n. n) key (or_default (lookup key d) 0 + 1) 0 d refl,
      )

  class-total :
      (d : Dict (ℕ × ℕ)) (os : List (RecordOutcome Real))
      → (total (λ v. v.1) (foldl count_class d os) ≡ total (λ v. v.1) d + length os)
        × (total (λ v. v.0) (foldl count_class d os)
            ≡ total (λ v. v.0) d + count (λ o. o.is_recovered) os)
  unfolding count_class
  class-total d [] = (omega arith, omega arith)
  class-total d (o ∷ os) =
      let key = name o.true_class in
      let old : ℕ × ℕ = or_default (lookup key d) (0, 0) in
      let new : ℕ × ℕ = (old.0 + (if o.is_recovered then 1 else 0), old.1 + 1) in
      let rest = class-total (count_class d o) os in
      (
        omega (arith, rest.0, total-insert (λ v. v.1) key new (0, 0) d refl),
        omega (arith, rest.1, total-insert (λ v. v.0) key new (0, 0) d refl),
      )

  sum_values-some :
      (values : Dict ℕ) (p : RecordOutcome Real → Bool) (os : List (RecordOutcome Real))
      → All (λ o. is_some (lookup o.subscription_id values) ≡ true) os
      → (total : ℕ) × (sum_values values p os ≡ some total)
  unfolding sum_values
  sum_values-some values p [] h = (0, refl)
  sum_values-some values p (o ∷ os) h =
      let (rest, e) = sum_values-some values p os h.1 in
      let (v, found) = is_some-value (lookup o.subscription_id values) h.0 in
      elim (Bool-cases (p o)) [
        | inl here ↦ (v + rest, rw here (rw found (rw e refl)))
        | inr not_here ↦ (rest, rw not_here e)
      ]

  -- The counts of the four kinds of prediction, of the classes and of the reasons, and the money.
  pub record IsBalanced (os : List (RecordOutcome Real)) (m : PolicyMetrics Real) : Type 0 where
    pub counted : m.n ≡ length os
    pub predictions : m.confusion.tp + m.confusion.fp + m.confusion.tn + m.confusion.fn ≡ length os
    pub some_recovered : m.recovered_count ≤ length os
    pub some_escalated : m.escalations ≤ length os
    pub some_wasted : m.wasted_cost_paise ≤ m.cost_paise
    pub classes : total (λ v. v.1) m.by_class ≡ length os
    pub recovered_classes : total (λ v. v.0) m.by_class ≡ m.recovered_count
    pub reasons : total (λ v. v) m.by_terminal ≡ length os

compute-metrics_of :
    (R : Reals) (randrange : ℕ → ℕ → ℕ) (title description : Text)
    (os : List (RecordOutcome R.Real)) (values : Dict ℕ) {recoverable gated : ℕ}
    → sum_values values (λ o. o.true_recoverable) os ≡ some recoverable
    → sum_values values (λ o. is_escalated o.terminal_reason) os ≡ some gated
    → compute R randrange title description os values
      ≡ some (metrics_of R randrange title description os recoverable gated)
unfolding compute
compute-metrics_of R randrange title description os values e f = rw (e, compute) (rw f refl)

-- If every row's plan amount is known, the metric set is computed, and it adds up: the four counts
-- of the confusion matrix make the number of rows, as do the totals of the classes and the counts
-- of the terminal reasons; the recoveries of the classes make the recoveries, which are no more
-- than the rows; nor are the escalations; and the wasted cost is no more than the cost.
pub compute-IsBalanced :
    (R : Reals) (randrange : ℕ → ℕ → ℕ) (title description : Text)
    (os : List (RecordOutcome R.Real)) (values : Dict ℕ)
    → All (λ o. is_some (lookup o.subscription_id values) ≡ true) os
    → (m : PolicyMetrics R.Real) × (compute R randrange title description os values ≡ some m)
      × IsBalanced os m
unfolding metrics_of
compute-IsBalanced R randrange title description os values h =
    let (recoverable, e) = sum_values-some values (λ o. o.true_recoverable) os h in
    let (gated, f) = sum_values-some values (λ o. is_escalated o.terminal_reason) os h in
    (
      metrics_of R randrange title description os recoverable gated,
      compute-metrics_of R randrange title description os values e f,
      record {
        counted = refl;
        predictions = count_four (λ o. o.predicted_recoverable) (λ o. o.true_recoverable) os;
        some_recovered = count≤length (λ o. o.is_recovered) os;
        some_escalated = count≤length (λ o. is_escalated o.terminal_reason) os;
        some_wasted = sum-keep (λ o. not o.true_recoverable) (λ o. o.cost_paise) os;
        classes =
            omega (
              arith,
              sort-sum leb_key (λ e. e.1.1) (foldl count_class [] os),
              (class-total [] os).0,
            );
        recovered_classes =
            omega (
              arith,
              sort-sum leb_key (λ e. e.1.0) (foldl count_class [] os),
              (class-total [] os).1,
            );
        reasons =
            omega (
              arith,
              sort-sum leb_key (λ e. e.1) (foldl count_terminal [] os),
              terminal-total [] os,
            );
      },
    )

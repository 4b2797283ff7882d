-- ===== src/Eval/Statistics.antt =====
-- src/reclaimos/eval/metrics.py: the statistics behind the metric set. `random.Random` is a
-- parameter: its k-th `randrange(n)`.
use reclaim_os.Prelude.{
  ℕ, zero, suc, ◌+◌, ◌-◌, ◌*◌, ◌/◌, ◌%◌, Option, none, some, List, [], ◌∷◌, length, get_or,
  if◌then◌else◌, ◌==◌,
}
use reclaim_os.Prelude.Int.{ℤ, pos, negsuc}
use reclaim_os.Prelude.Sorting.{sort}
use reclaim_os.Money.{is_zero}
use reclaim_os.Domain.Real.{Reals}

pub record Interval (Real : Type 0) : Type 0 where
  pub low : Real
  pub high : Real

pub record Confusion : Type 0 where
  pub tp : ℕ
  pub fp : ℕ
  pub tn : ℕ
  pub fn : ℕ

abbrev pub bootstrap_resamples : ℕ
bootstrap_resamples = 2000

module _ (R : Reals) where
  open R use {Real, lit, add, sub, mul, div, of_nat, leb}

  -- float(n) of an int
  abbrev pub of_int : ℤ → Real
  of_int (pos n) = of_nat n
  of_int (negsuc n) = sub (lit 0 1) (of_nat (suc n))

  module _ (c : Confusion) where
    unfoldable pub precision : Real
    precision = if c.tp + c.fp == 0 then lit 0 1 else div (of_nat c.tp) (of_nat (c.tp + c.fp))

    unfoldable pub recall : Real
    recall = if c.tp + c.fn == 0 then lit 0 1 else div (of_nat c.tp) (of_nat (c.tp + c.fn))

    unfoldable pub f1 : Real
    unfolding precision recall is_zero
    f1 =
        if is_zero R (add precision recall)
        then lit 0 1
        else div (mul (mul (lit 20 1) precision) recall) (add precision recall)

  -- `statistics.median` of sorted data
  unfoldable pub median : List Real → Option Real
  median [] = none
  median (h ∷ hs) =
      let n = length (h ∷ hs) in
      if n % 2 == 1
      then some (get_or (h ∷ hs) (n / 2) (lit 0 1))
      else some (
          div (add (get_or (h ∷ hs) (n / 2 - 1) (lit 0 1)) (get_or (h ∷ hs) (n / 2) (lit 0 1)))
            (lit 20 1))

  -- hours[int(0.9 * (len(hours) - 1))]
  unfoldable pub p90 : List Real → Option Real
  p90 [] = none
  p90 (h ∷ hs) = some (get_or (h ∷ hs) (9 * length hs / 10) (lit 0 1))

  module _ (randrange : ℕ → ℕ → ℕ) where
    -- The sum of `left` draws, the first of them the k-th of all.
    unfoldable pub drawn : List Real → ℕ → ℕ → Real → Real
    drawn values zero k total = total
    drawn values (suc left) k total =
        drawn values left (suc k)
          (add total (get_or values (randrange k (length values)) (lit 0 1)))

    unfoldable pub means : List Real → ℕ → List Real
    unfolding drawn
    means values zero = []
    means values (suc left) =
        let n = length values in
        let first = (bootstrap_resamples - suc left) * n in
        div (drawn values n first (lit 0 1)) (of_nat n) ∷ means values left

    -- The 50th and the 1950th of the 2000 sorted means, times `scale`.
    unfoldable pub interval_of : (Real → Real) → List Real → Interval Real
    unfolding means
    interval_of scale values =
        let ordered = sort leb (means values bootstrap_resamples) in
        record {
          low = scale (get_or ordered 50 (lit 0 1));
          high = scale (get_or ordered 1950 (lit 0 1));
        }

-- ===== src/Generator/Oracle/Greedy/Choice.antt =====
-- Where the picked pair comes from, and when there is none.
use reclaim_os.Prelude.{
  ℕ, ◌≡◌, refl, true, false, Option, none, some, foldl, All, All-imp, Bool-cases, inl, inr, arith,
  &&-true, if_both, not,
}
use reclaim_os.Domain.Models.{
  SubscriptionRecord, ActionType, retry_charge, send_payment_link, request_card_update,
  escalate_human, stop, card, same_method,
}
use reclaim_os.Domain.Real.{Reals, IsOrdered, leb_refl, le-max_of_left, le-min_of}
use reclaim_os.Generator.World.{WorldRecord, success_probability, clamp}
use reclaim_os.Generator.Oracle.{
  Best, oracle_actions, oracle_delay_grid, no_pair, is_allowed, consider, best_pair,
}
use reclaim_os.Generator.Oracle.Greedy.{
  Listed, each_in_its_list, foldl_keeps_all, probability, is_better, consider_both, unbeaten,
}

-- 0.0 <= 0.97, and not 0.0 <= 0.0 - 1.0.
pub record HasBounds (R : Reals) : Type 0 where
  pub zero-le-cap : R.leb (R.lit 0 1) (R.lit 97 2) ≡ true
  pub not-zero-le-initial : R.leb (R.lit 0 1) (R.sub (R.lit 0 1) (R.lit 10 1)) ≡ false

module _ (R : Reals) (r : SubscriptionRecord) (truth : WorldRecord R.Real) (elapsed : R.Real)
    (charges contacts : ℕ) where
  open R use {Real, add, leb, lit}

  -- The action is the ceiling's, the time is on its grid, the pair is allowed, and `best_p` is its
  -- probability.
  abbrev pub FromGrid : ActionType → Best Real → Type 0
  FromGrid a best =
      Listed a oracle_actions
      × ((delay : Real) × Listed delay (oracle_delay_grid R) × (best.t ≡ add elapsed delay))
      × (is_allowed R r truth elapsed charges contacts a best.t ≡ true)
      × (best.p ≡ probability R r truth elapsed charges contacts a best.t)

  -- A pair of the grid, or still the first `best_p`.
  abbrev Chosen : Option ActionType → Best Real → Type 0
  Chosen none best = best.p ≡ (no_pair R).p
  Chosen (some a) best = FromGrid a best

  abbrev IsChosen : Best Real → Type 0
  IsChosen best = Chosen best.action best

  consider-IsChosen :
      (a : ActionType) (delay : Real) (best : Best Real)
      → Listed a oracle_actions
      → Listed delay (oracle_delay_grid R)
      → IsChosen best
      → IsChosen (consider R r truth elapsed charges contacts a best delay)
  consider-IsChosen a delay best la ld h =
      consider_both R r truth elapsed charges contacts IsChosen a best delay
        (λ e. (
          la,
          (delay, ld, refl),
          (&&-true (is_allowed R r truth elapsed charges contacts a (add elapsed delay)) _ e).0,
          refl,
        ))
        λ e. h

  abbrev consider_all : Best Real → ActionType → Best Real
  consider_all b a = foldl (consider R r truth elapsed charges contacts a) b (oracle_delay_grid R)

  abbrev Keeps : {A : Type 0} → (Best Real → A → Best Real) → A → Type 0
  Keeps f x = (b : Best Real) → IsChosen b → IsChosen (f b x)

  consider_all-IsChosen : (a : ActionType) → Listed a oracle_actions → Keeps consider_all a
  consider_all-IsChosen a la =
      let steps : All (Keeps (consider R r truth elapsed charges contacts a))
          (oracle_delay_grid R) =
        All-imp (λ delay ld b k. consider-IsChosen a delay b la ld k) (oracle_delay_grid R)
          (each_in_its_list (oracle_delay_grid R)) in
      foldl_keeps_all IsChosen (consider R r truth elapsed charges contacts a) (oracle_delay_grid R)
        steps

  best_pair-IsChosen : IsChosen (best_pair R r truth elapsed charges contacts)
  unfolding best_pair
  best_pair-IsChosen =
      let steps : All (Keeps consider_all) oracle_actions =
        All-imp consider_all-IsChosen oracle_actions (each_in_its_list oracle_actions) in
      foldl_keeps_all IsChosen consider_all oracle_actions steps (no_pair R) refl

  module _ (o : IsOrdered R) (bounds : HasBounds R) where
    zero-le-clamp : (p : Real) → leb (lit 0 1) (clamp R p) ≡ true
    unfolding clamp
    zero-le-clamp p =
        le-min_of R o (lit 0 1) (lit 97 2) _ bounds.zero-le-cap (le-max_of_left R o (lit 0 1) p)

    zero-le-probability :
        (a : ActionType) (t : Real)
        → leb (lit 0 1) (probability R r truth elapsed charges contacts a t) ≡ true
    unfolding success_probability
    zero-le-probability retry_charge t = zero-le-clamp _
    zero-le-probability send_payment_link t = zero-le-clamp _
    zero-le-probability request_card_update t =
        if_both (λ p. leb (lit 0 1) p ≡ true) (not (same_method r.method card))
          (λ no_card. leb_refl R o (lit 0 1)) λ by_card. zero-le-clamp _
    zero-le-probability escalate_human t = leb_refl R o (lit 0 1)
    zero-le-probability stop t = leb_refl R o (lit 0 1)

    -- A pair that does not beat the initial `best_p` is not allowed.
    not_allowed :
        (best : Best Real) (a : ActionType) (delay : Real)
        → best.p ≡ (no_pair R).p
        → is_better R r truth elapsed charges contacts best a delay ≡ false
        → is_allowed R r truth elapsed charges contacts a (add elapsed delay) ≡ false
    not_allowed best a delay initial h =
        let likely = probability R r truth elapsed charges contacts a (add elapsed delay) in
        let above : leb likely best.p ≡ false = elim (Bool-cases (leb likely best.p)) [
          | inr e ↦ e
          | inl e ↦ absurd (
              ground (
                arith,
                bounds.not-zero-le-initial,
                initial,
                o.trans (lit 0 1) likely best.p (zero-le-probability a (add elapsed delay)) e,
              ))
        ] in
        elim (Bool-cases (is_allowed R r truth elapsed charges contacts a (add elapsed delay))) [
          | inr e ↦ e
          | inl e ↦ absurd (ground (arith, above, e, h))
        ]

    -- What the search answers: a pair of the grid, or none, and then no pair is allowed.
    abbrev pub Answers : Option ActionType → Best Real → Type 0
    Answers none best =
        All
          (λ a.
            All
              (λ delay. is_allowed R r truth elapsed charges contacts a (add elapsed delay) ≡ false)
              (oracle_delay_grid R))
          oracle_actions
    Answers (some a) best = FromGrid a best

    abbrev pub Unbeaten : Best Real → Type 0
    Unbeaten best =
        All
          (λ a.
            All (λ delay. is_better R r truth elapsed charges contacts best a delay ≡ false)
              (oracle_delay_grid R))
          oracle_actions

    answers :
        (action : Option ActionType) (best : Best Real)
        → Chosen action best
        → Unbeaten best
        → Answers action best
    answers none best initial none_better =
        All-imp (λ a. All-imp (λ delay. not_allowed best a delay initial) (oracle_delay_grid R))
          oracle_actions none_better
    answers (some a) best chosen none_better = chosen

    -- With floats whose order keeps the laws of `IsOrdered`, where 0.97 is at least 0.0 and -1.0 is
    -- below it: of the actions and the delays of the grid, no allowed pair is likelier than the
    -- picked one. A picked pair has an action of the ceiling's, a time that is a delay of the grid
    -- after `elapsed`, is allowed, and has `best_p` for its probability. No pair is picked only if
    -- none of the grid is allowed.
    pub best_pair-greedy :
        let best = best_pair R r truth elapsed charges contacts in
        Unbeaten best × Answers best.action best
    best_pair-greedy =
        let best = best_pair R r truth elapsed charges contacts in
        let none_better : Unbeaten best = unbeaten R r truth elapsed charges contacts o in
        (none_better, answers best.action best best_pair-IsChosen none_better)

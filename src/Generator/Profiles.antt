-- ===== src/Generator/Profiles.antt =====
-- src/reclaimos/generator/profiles.py: the mix of the population and how it is drawn.
-- `random.Random` is an interface: a state and what the program calls on it.
use reclaim_os.Prelude.{
  ℕ, zero, suc, ◌+◌, ◌-◌, ◌*◌, ◌<◌, List, [], ◌∷◌, length, get_or, keep, map, min, replicate, Text,
  codes, ◌++◌, if◌then◌else◌,
}
use reclaim_os.Domain.Declines.{
  DeclineClass, soft_insufficient_funds, soft_issuer_technical, soft_limit_exceeded,
  hard_risk_flagged, hard_do_not_honor, hard_mandate_revoked, hard_not_permitted,
  expiry_card_expired, expiry_mandate_expired, unknown,
}
use reclaim_os.Domain.Models.{Method, upi_autopay, card, emandate}
use reclaim_os.Domain.Real.{Reals, ltb as lt_real}

pub record Random (Real : Type 0) : Type 1 where
  pub State : Type 0
  -- random.Random(seed)
  pub seeded : ℕ → State
  pub random : State → Real × State
  pub randrange : ℕ → State → ℕ × State
  -- The index of the element that `choices(population, weights, k=1)` draws.
  pub choices : List Real → State → ℕ × State
  pub expovariate : Real → State → Real × State
  pub betavariate : Real → Real → State → Real × State
  pub uniform : Real → Real → State → Real × State
  -- int(a) of a nonnegative a
  pub truncate : Real → ℕ

-- The documented ranges of `randrange` and `choices`.
pub record IsRandom {Real : Type 0} (g : Random Real) : Type 0 where
  pub randrange-lt : (n : ℕ) (s : g.State) → 0 < n → (g.randrange n s).0 < n
  pub choices-lt : (ws : List Real) (s : g.State) → 0 < length ws → (g.choices ws s).0 < length ws

module _ (R : Reals) where
  open R use {Real, lit, div}

  abbrev pub method_weights : List (Method × Real)
  method_weights = (upi_autopay, lit 45 2) ∷ ((card, lit 40 2) ∷ ((emandate, lit 15 2) ∷ []))

  -- Rupees and weights.
  abbrev pub plan_tiers : List (ℕ × Real)
  plan_tiers =
      (199, lit 14 2)
      ∷ ((299, lit 18 2)
          ∷ ((499, lit 22 2)
              ∷ ((799, lit 13 2)
                  ∷ ((999, lit 13 2)
                      ∷ ((1499, lit 8 2)
                          ∷ ((2999, lit 5 2)
                              ∷ ((4999, lit 3 2)
                                  ∷ ((7999, lit 3 2) ∷ ((12999, lit 1 2) ∷ [])))))))))

  -- The weights of one rail, in the order of the table.
  abbrev pub class_row : ℕ → ℕ → ℕ → ℕ → ℕ → ℕ → ℕ → ℕ → ℕ → ℕ → List (DeclineClass × Real)
  class_row a b c d e f g h i j =
      (soft_insufficient_funds, lit a 2)
      ∷ ((soft_issuer_technical, lit b 2)
          ∷ ((soft_limit_exceeded, lit c 2)
              ∷ ((hard_do_not_honor, lit d 2)
                  ∷ ((hard_risk_flagged, lit e 2)
                      ∷ ((hard_not_permitted, lit f 2)
                          ∷ ((hard_mandate_revoked, lit g 2)
                              ∷ ((expiry_card_expired, lit h 2)
                                  ∷ ((expiry_mandate_expired, lit i 2)
                                      ∷ ((unknown, lit j 2) ∷ [])))))))))

  unfoldable pub class_weights : Method → List (DeclineClass × Real)
  class_weights card = class_row 26 8 4 20 9 0 2 22 2 7
  class_weights upi_autopay = class_row 38 12 6 14 4 0 12 0 6 8
  class_weights emandate = class_row 36 8 3 16 3 0 13 0 12 9

  module _ (g : Random Real) where
    -- `_weighted_choice`; `d` stands for the IndexError of an index that does not arise.
    unfoldable pub weighted_choice {ℓ} : {A : Type ℓ} → A → List (A × Real) → g.State → A × g.State
    weighted_choice d weights s =
        let (i, s') = g.choices (map (λ e. e.1) weights) s in
        (get_or (map (λ e. e.0) weights) i d, s')

    unfoldable pub sample_method : g.State → Method × g.State
    unfolding weighted_choice
    sample_method s = weighted_choice upi_autopay method_weights s

    -- The classes of weight 0 are left out.
    abbrev pub drawn_classes : Method → List (DeclineClass × Real)
    drawn_classes m = keep (λ e. lt_real R (lit 0 1) e.1) (class_weights m)

    unfoldable pub sample_decline_class : Method → g.State → DeclineClass × g.State
    unfolding weighted_choice
    sample_decline_class m s = weighted_choice unknown (drawn_classes m) s

    unfoldable pub sample_plan_amount_paise : g.State → ℕ × g.State
    unfolding weighted_choice
    sample_plan_amount_paise s =
        let (tier, s') = weighted_choice 199 plan_tiers s in (tier * 100, s')

    unfoldable pub sample_tenure_months : g.State → ℕ × g.State
    sample_tenure_months s =
        let (x, s') = g.expovariate (div (lit 10 1) (lit 90 1)) s in (min 48 (g.truncate x), s')

    -- rng.randint(a, b)
    abbrev pub randint : ℕ → ℕ → g.State → ℕ × g.State
    randint a b s = let (k, s') = g.randrange (b - a + 1) s in (a + k, s')

    unfoldable pub sample_billing_cycle_day : g.State → ℕ × g.State
    sample_billing_cycle_day s =
        let (x, s') = g.random s in
        if lt_real R x (lit 45 2) then randint 1 5 s' else randint 6 28 s'

    -- k draws of the alphabet of 34 characters, all of one weight
    unfoldable pub id_characters : ℕ → g.State → Text × g.State
    id_characters zero s = ([], s)
    id_characters (suc k) s =
        let (i, s') = g.choices (replicate 34 (lit 10 1)) s in
        let (rest, s'') = id_characters k s' in
        (get_or (codes "ABCDEFGHJKLMNPQRSTUVWXYZ0123456789") i b'A' ∷ rest, s'')

    -- `_razorpay_style_id`
    unfoldable pub razorpay_style_id : Text → g.State → Text × g.State
    unfolding id_characters
    razorpay_style_id prefix s = let (tail, s') = id_characters 14 s in (prefix ++ tail, s')

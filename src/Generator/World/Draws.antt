-- ===== src/Generator/World/Draws.antt =====
-- A record that has a draw is always answered.
use reclaim_os.Prelude.{
  ℕ, ◌+◌, ◌-◌, ◌≡◌, refl, Bool, true, false, Bool-cases, inl, inr, not, none, some, length,
  is_empty, get_or, get_clamped, get_clamped-some, min, arith, if◌then◌else◌,
}
use reclaim_os.Domain.Models.{SubscriptionRecord, ActionType, AttemptResult}
use reclaim_os.Domain.Real.{Reals, ltb as lt_real}
use reclaim_os.Generator.World.{WorldRecord, resolve, success_probability}

-- The sealed record has a draw.
abbrev pub has_draws : {Real : Type 0} → WorldRecord Real → Bool
has_draws truth = not (is_empty truth.draws)

module _ (R : Reals) (r : SubscriptionRecord) (truth : WorldRecord R.Real) where
  open R use {Real, lit}

  -- The draw of a slot, of a record that has one.
  abbrev pub draw_of : ℕ → Real
  draw_of slot = get_or truth.draws (min slot (length truth.draws - 1)) (lit 0 1)

  pub get_clamped-draw_of :
      (slot : ℕ) → has_draws truth ≡ true → get_clamped truth.draws slot ≡ some (draw_of slot)
  get_clamped-draw_of slot h = get_clamped-some truth.draws slot (lit 0 1) (ground arith)

  -- The only way `resolve` raises.
  pub resolve-none :
      (a : ActionType) (t : Real) (slot charges contacts : ℕ)
      → resolve R r truth a t slot charges contacts ≡ none
      → has_draws truth ≡ false
  unfolding resolve
  resolve-none a t slot charges contacts h = elim (Bool-cases (has_draws truth)) [
    | inl e ↦ absurd (ground (arith, get_clamped-draw_of slot e))
    | inr e ↦ e
  ]

  -- What `resolve` answers where there is a draw.
  abbrev pub answer_of : ActionType → Real → ℕ → ℕ → ℕ → AttemptResult Real
  answer_of a t slot charges contacts =
      let p = success_probability R r truth a t charges contacts in
      let hit = lt_real R (draw_of slot) p in
      record {
        succeeded = hit;
        amount_paise = if hit then r.plan_amount_paise else 0;
        occurred_at = r.charge_at + R.hours t;
        probability = p;
        draw = draw_of slot;
      }

  pub resolve-drawn :
      (a : ActionType) (t : Real) (slot charges contacts : ℕ)
      → has_draws truth ≡ true
      → resolve R r truth a t slot charges contacts ≡ some (answer_of a t slot charges contacts)
  unfolding resolve
  resolve-drawn a t slot charges contacts h = rw (get_clamped-draw_of slot h, resolve) refl

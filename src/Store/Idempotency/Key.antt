-- ===== src/Store/Idempotency/Key.antt =====
-- The key names one logical action: no two actions share one.
use reclaim_os.Prelude.{
  ℕ, Text, ◌≡◌, ◌≢◌, refl, sym, subst, ◌∙◌, arith, [], ◌∷◌, ◌++◌, All, append_assoc,
}
use reclaim_os.Prelude.Decimal.{decimal, decimal-All, decimal-injective}
use reclaim_os.Domain.Models.{
  ActionType, action_value, retry_charge, send_payment_link, request_card_update, escalate_human,
  stop,
}
use reclaim_os.Store.Idempotency.{idempotency_key}

abbrev NoColon : Text → Type 0
NoColon = All (λ c. c ≢ b':')

NoColon-inside : (b w : Text) → ¬ NoColon (b ++ b':' ∷ w)
NoColon-inside [] w h = h.0 refl
NoColon-inside (y ∷ b) w h = NoColon-inside b w h.1

-- What stands behind the last colon.
split_last :
    (a b v w : Text) → NoColon v → NoColon w → a ++ b':' ∷ v ≡ b ++ b':' ∷ w → (a ≡ b) × (v ≡ w)
split_last [] [] v w hv hw e = (refl, cc)
split_last [] (y ∷ b) v w hv hw e =
    let inside : v ≡ b ++ b':' ∷ w = cc in absurd (NoColon-inside b w (subst NoColon inside hv))
split_last (x ∷ a) [] v w hv hw e =
    let inside : w ≡ a ++ b':' ∷ v = cc in absurd (NoColon-inside a v (subst NoColon inside hw))
split_last (x ∷ a) (y ∷ b) v w hv hw e =
    let rest = split_last a b v w hv hw (cc) in (cc (rest.0), rest.1)

action_value-NoColon : (a : ActionType) → NoColon (action_value a)
unfolding action_value
action_value-NoColon retry_charge = omega arith
action_value-NoColon send_payment_link = omega arith
action_value-NoColon request_card_update = omega arith
action_value-NoColon escalate_human = omega arith
action_value-NoColon stop = omega arith

action_value-injective : (a b : ActionType) → action_value a ≡ action_value b → a ≡ b
unfolding action_value
action_value-injective retry_charge b e = ground arith
action_value-injective _ b e = ground arith

-- Two logical actions with one idempotency key are the same action: the same subscription,
-- the same attempt and the same kind, whatever characters the subscription id holds.
pub idempotency_key-injective :
    (s s' : Text) (n n' : ℕ) (a a' : ActionType)
    → idempotency_key s n a ≡ idempotency_key s' n' a'
    → (s ≡ s') × (n ≡ n') × (a ≡ a')
unfolding idempotency_key
idempotency_key-injective s s' n n' a a' e =
    let digits = decimal-All (λ c. c ≢ b':') (λ d h. omega arith) in
    let regroup = λ (t : Text) (m : ℕ) (v : Text). append_assoc t (b':' ∷ decimal m) (b':' ∷ v) in
    let outer =
      split_last (s ++ b':' ∷ decimal n) (s' ++ b':' ∷ decimal n') (action_value a)
        (action_value a') (action_value-NoColon a) (action_value-NoColon a')
        (regroup s n (action_value a) ∙ e ∙ sym (regroup s' n' (action_value a'))) in
    let inner = split_last s s' (decimal n) (decimal n') (digits n) (digits n') outer.0 in
    (inner.0, decimal-injective n n' inner.1, action_value-injective a a' outer.1)

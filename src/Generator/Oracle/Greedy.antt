-- ===== src/Generator/Oracle/Greedy.antt =====
-- The pair that the search of one slot picks.
pub mod Choice
use reclaim_os.Prelude.{
  ◌⊎◌, ℕ, ◌≡◌, refl, Bool, true, false, ◌&&◌, none, some, List, [], ◌∷◌, foldl, All, All-imp,
  Bool-cases, inl, inr, arith, if_both, &&-true, and-false,
}
use reclaim_os.Domain.Models.{SubscriptionRecord, ActionType}
use reclaim_os.Domain.Real.{Reals, IsOrdered, leb_refl, ltb as lt_real}
use reclaim_os.Generator.World.{WorldRecord, success_probability}
use reclaim_os.Generator.Oracle.{
  Best, oracle_actions, oracle_delay_grid, no_pair, is_allowed, consider, best_pair,
}

-- What every step keeps, a fold keeps.
pub foldl_keeps {ℓ κ} :
    {A : Type ℓ} {B : Type ℓ} (P : B → Type κ) (f : B → A → B)
    → ((b : B) (x : A) → P b → P (f b x))
    → (b : B) (xs : List A) → P b
    → P (foldl f b xs)
foldl_keeps P f step b [] h = h
foldl_keeps P f step b (x ∷ xs) h = foldl_keeps P f step (f b x) xs (step b x h)

-- What the step of an element brings about and every step keeps, holds of every element.
pub foldl_reaches {ℓ κ} :
    {A : Type ℓ} {B : Type ℓ} (P : A → B → Type κ) (f : B → A → B)
    → ((x : A) (b : B) (y : A) → P x b → P x (f b y))
    → ((b : B) (x : A) → P x (f b x))
    → (b : B) (xs : List A) → All (λ x. P x (foldl f b xs)) xs
foldl_reaches P f kept reached b [] = tt
foldl_reaches P f kept reached b (x ∷ xs) = (
  foldl_keeps (P x) f (kept x) (f b x) xs (reached b x),
  foldl_reaches P f kept reached (f b x) xs,
)

-- What the step of every element of the list keeps, the fold keeps.
pub foldl_keeps_all {ℓ κ} :
    {A : Type ℓ} {B : Type ℓ} (P : B → Type κ) (f : B → A → B) (xs : List A)
    → All (λ x. (b : B) → P b → P (f b x)) xs
    → (b : B) → P b
    → P (foldl f b xs)
foldl_keeps_all P f [] steps b h = h
foldl_keeps_all P f (x ∷ xs) steps b h = foldl_keeps_all P f xs steps.1 (f b x) (steps.0 b h)

-- The element stands in the list.
abbrev pub Listed : {A : Type 0} → A → List A → Type 0
Listed x [] = ⊥
Listed x (y ∷ ys) = (x ≡ y) ⊎ Listed x ys

pub each_in_its_list : {A : Type 0} (xs : List A) → All (λ x. Listed x xs) xs
each_in_its_list [] = tt
each_in_its_list (x ∷ xs) = (inl refl, All-imp (λ y h. inr h) xs (each_in_its_list xs))

module _ (R : Reals) (r : SubscriptionRecord) (truth : WorldRecord R.Real) (elapsed : R.Real)
    (charges contacts : ℕ) where
  open R use {Real, add, leb}

  abbrev pub probability : ActionType → Real → Real
  probability action t = success_probability R r truth action t charges contacts

  -- The pair is allowed and would be likelier than the best one.
  abbrev pub is_better : Best Real → ActionType → Real → Bool
  is_better best action delay =
      is_allowed R r truth elapsed charges contacts action (add elapsed delay)
      && lt_real R best.p (probability action (add elapsed delay))

  -- If there is a best pair, it is allowed, and `best_p` is its probability.
  abbrev pub IsPair : Best Real → Type 0
  IsPair best = elim best.action [
    | none ↦ Unit
    | some a ↦
        (is_allowed R r truth elapsed charges contacts a best.t ≡ true)
        × (best.p ≡ probability a best.t)
  ]

  -- The two ways a step goes.
  pub consider_both {κ} :
      (P : Best Real → Type κ) (a : ActionType) (best : Best Real) (delay : Real)
      → (is_better best a delay ≡ true
          → P (record {
            p = probability a (add elapsed delay);
            action = some a;
            t = add elapsed delay;
          }))
      → (is_better best a delay ≡ false → P best)
      → P (consider R r truth elapsed charges contacts a best delay)
  unfolding consider
  consider_both P a best delay = if_both P (is_better best a delay)

  pub consider-IsPair :
      (a : ActionType) (best : Best Real) (delay : Real)
      → IsPair best
      → IsPair (consider R r truth elapsed charges contacts a best delay)
  consider-IsPair a best delay h =
      consider_both IsPair a best delay
        (λ e. (
          (&&-true (is_allowed R r truth elapsed charges contacts a (add elapsed delay)) _ e).0,
          refl,
        ))
        λ e. h

  pub best_pair-IsPair : IsPair (best_pair R r truth elapsed charges contacts)
  unfolding best_pair
  best_pair-IsPair =
      foldl_keeps IsPair _
        (λ best a h.
          foldl_keeps IsPair _ (λ b delay k. consider-IsPair a b delay k) best (oracle_delay_grid R)
            h)
        (no_pair R) oracle_actions tt

  module _ (o : IsOrdered R) where
    lt→le : (p q : Real) → lt_real R p q ≡ true → leb p q ≡ true
    lt→le p q h = elim (o.total p q) [ inl e ↦ e | inr e ↦ absurd (cc) ]

    consider_mono :
        (a : ActionType) (best : Best Real) (delay p : Real)
        → leb p best.p ≡ true
        → leb p (consider R r truth elapsed charges contacts a best delay).p ≡ true
    consider_mono a best delay p h =
        consider_both (λ b. leb p b.p ≡ true) a best delay
          (λ e. o.trans p best.p (probability a (add elapsed delay)) h (
            lt→le best.p (probability a (add elapsed delay))
              (&&-true (is_allowed R r truth elapsed charges contacts a (add elapsed delay)) _
                e).1))
          λ e. h

    -- No better: it is not allowed, or not likelier.
    not_better :
        (best : Best Real) (a : ActionType) (delay : Real)
        → leb (probability a (add elapsed delay)) best.p ≡ true
        → is_better best a delay ≡ false
    not_better best a delay h =
        rw h (and-false (is_allowed R r truth elapsed charges contacts a (add elapsed delay)))

    consider-reaches :
        (best : Best Real) (a : ActionType) (delay : Real)
        → is_better (consider R r truth elapsed charges contacts a best delay) a delay ≡ false
    consider-reaches best a delay =
        consider_both (λ b. is_better b a delay ≡ false) a best delay
          (λ e.
            not_better
              (record {
                p = probability a (add elapsed delay);
                action = some a;
                t = add elapsed delay;
              })
              a delay (leb_refl R o (probability a (add elapsed delay))))
          λ e. e

    consider-keeps :
        (a' : ActionType) (best : Best Real) (delay' : Real) (a : ActionType) (delay : Real)
        → is_better best a delay ≡ false
        → is_better (consider R r truth elapsed charges contacts a' best delay') a delay ≡ false
    consider-keeps a' best delay' a delay h =
        elim (Bool-cases (is_allowed R r truth elapsed charges contacts a (add elapsed delay))) [
          | inl e ↦
              not_better (consider R r truth elapsed charges contacts a' best delay') a delay (
                consider_mono a' best delay' (probability a (add elapsed delay))
                  (ground (arith, e)))
          | inr e ↦ rw e refl
        ]

    abbrev Unbeaten : ActionType → Best Real → Type 0
    Unbeaten a best = All (λ delay. is_better best a delay ≡ false) (oracle_delay_grid R)

    pub unbeaten :
        All (λ a. Unbeaten a (best_pair R r truth elapsed charges contacts)) oracle_actions
    unfolding best_pair
    unbeaten =
        foldl_reaches Unbeaten
          (λ best a.
            foldl (consider R r truth elapsed charges contacts a) best (oracle_delay_grid R))
          (λ a best a' h.
            foldl_keeps (Unbeaten a) (consider R r truth elapsed charges contacts a')
              (λ b delay' k.
                All-imp (λ delay. consider-keeps a' b delay' a delay) (oracle_delay_grid R) k)
              best (oracle_delay_grid R) h)
          (λ best a.
            foldl_reaches (λ delay b. is_better b a delay ≡ false)
              (consider R r truth elapsed charges contacts a)
              (λ delay b delay'. consider-keeps a b delay' a delay)
              (λ b delay. consider-reaches b a delay) best (oracle_delay_grid R))
          (no_pair R) oracle_actions

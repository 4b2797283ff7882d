-- ===== src/Prelude/Sorting.antt =====
-- Python's stable sort by a key, for a test `le` of the keys.
use Prim.Native.Nat.{ℕ, ◌+◌}
use mathlib.Core.Path.{◌≡◌, refl, ◌∙◌}
use mathlib.Core.Logic.{inl, inr, ◌⊎◌}
use mathlib.Core.Bool.{Bool, true, false}
use mathlib.Core.List.{List, [], ◌∷◌, ◌++◌, map}
use native.Mathlib.Omega.{arith}
use reclaim_os.Prelude.Tests.{if◌then◌else◌, Bool-cases, ltb}
use reclaim_os.Prelude.Texts.{Text}
use reclaim_os.Prelude.Lists.{length, count, sum, All, All-imp}

module _ {ℓ} {A : Type ℓ} (le : A → A → Bool) where
  abbrev pub place : A → List A → List A
  place x [] = x ∷ []
  place x (y ∷ ys) = let rest = place x ys in if le x y then x ∷ (y ∷ ys) else y ∷ rest

  abbrev pub sort : List A → List A
  sort [] = []
  sort (x ∷ xs) = place x (sort xs)

  -- Each element is at most every later one.
  abbrev pub IsSorted : List A → Type 0
  IsSorted [] = Unit
  IsSorted (x ∷ xs) = All (λ y. le x y ≡ true) xs × IsSorted xs

  -- The elements are the same, as often.
  place-count : (p : A → Bool) (x : A) (xs : List A) → count p (place x xs) ≡ count p (x ∷ xs)
  place-count p x [] = refl
  place-count p x (y ∷ ys) = elim (Bool-cases (le x y)) [
    | inl e ↦ rw e refl
    | inr e ↦ rw e (omega (arith, place-count p x ys))
  ]

  pub sort-count : (p : A → Bool) (xs : List A) → count p (sort xs) ≡ count p xs
  sort-count p [] = refl
  sort-count p (x ∷ xs) = place-count p x (sort xs) ∙ omega (arith, sort-count p xs)

  pub place-All {κ} : (P : A → Type κ) (x : A) (xs : List A) → P x → All P xs → All P (place x xs)
  place-All P x [] h k = (h, tt)
  place-All P x (y ∷ ys) h k = elim (Bool-cases (le x y)) [
    | inl e ↦ rw e (h, k)
    | inr e ↦ rw e (k.0, place-All P x ys h k.1)
  ]

  pub sort-All {κ} : (P : A → Type κ) (xs : List A) → All P xs → All P (sort xs)
  sort-All P [] h = tt
  sort-All P (x ∷ xs) h = place-All P x (sort xs) h.0 (sort-All P xs h.1)

  pub place-length : (x : A) (xs : List A) → length (place x xs) ≡ length (x ∷ xs)
  place-length x [] = refl
  place-length x (y ∷ ys) = elim (Bool-cases (le x y)) [
    | inl e ↦ rw e refl
    | inr e ↦ rw e (omega (arith, place-length x ys))
  ]

  pub sort-length : (xs : List A) → length (sort xs) ≡ length xs
  sort-length [] = refl
  sort-length (x ∷ xs) = place-length x (sort xs) ∙ omega (arith, sort-length xs)

  place-sum : (w : A → ℕ) (x : A) (xs : List A) → sum (map w (place x xs)) ≡ w x + sum (map w xs)
  place-sum w x [] = refl
  place-sum w x (y ∷ ys) = elim (Bool-cases (le x y)) [
    | inl e ↦ rw e refl
    | inr e ↦ rw e (omega (arith, place-sum w x ys))
  ]

  pub sort-sum : (w : A → ℕ) (xs : List A) → sum (map w (sort xs)) ≡ sum (map w xs)
  sort-sum w [] = refl
  sort-sum w (x ∷ xs) = place-sum w x (sort xs) ∙ omega (arith, sort-sum w xs)

  module _ (total : (x y : A) → (le x y ≡ true) ⊎ (le y x ≡ true))
      (trans : (x y z : A) → le x y ≡ true → le y z ≡ true → le x z ≡ true) where
    place-IsSorted : (x : A) (xs : List A) → IsSorted xs → IsSorted (place x xs)
    place-IsSorted x [] h = (tt, tt)
    place-IsSorted x (y ∷ ys) h = elim (Bool-cases (le x y)) [
      | inl e ↦ rw e ((e, All-imp (λ z k. trans x y z e k) ys h.0), h)
      | inr e ↦
          let below : le y x ≡ true = elim (total x y) [ inl k ↦ absurd (cc) | inr k ↦ k ] in
          rw e (place-All (λ z. le y z ≡ true) x ys below h.0, place-IsSorted x ys h.1)
    ]

    pub sort-IsSorted : (xs : List A) → IsSorted (sort xs)
    sort-IsSorted [] = tt
    sort-IsSorted (x ∷ xs) = place-IsSorted x (sort xs) (sort-IsSorted xs)

-- s <= t on strings
abbrev pub leb_text : Text → Text → Bool
leb_text [] t = true
leb_text (c ∷ s) [] = false
leb_text (c ∷ s) (d ∷ t) =
    let rest = leb_text s t in if ltb c d then true else if ltb d c then false else rest

pub leb_text_total : (s t : Text) → (leb_text s t ≡ true) ⊎ (leb_text t s ≡ true)
leb_text_total [] t = inl refl
leb_text_total (c ∷ s) [] = inr refl
leb_text_total (c ∷ s) (d ∷ t) = ground (arith, leb_text_total s t)

pub leb_text_trans :
    (s t u : Text) → leb_text s t ≡ true → leb_text t u ≡ true → leb_text s u ≡ true
leb_text_trans [] t u h k = refl
leb_text_trans (c ∷ s) [] u h k = absurd (cc)
leb_text_trans (c ∷ s) (d ∷ t) [] h k = absurd (cc)
leb_text_trans (c ∷ s) (d ∷ t) (e ∷ u) h k = ground (arith, leb_text_trans s t u)

All-tail {ℓ κ} : {A : Type ℓ} (P : A → Type κ) (xs ys : List A) → All P (xs ++ ys) → All P ys
All-tail P [] ys h = h
All-tail P (x ∷ xs) ys h = All-tail P xs ys h.1

-- Of two parts of a sorted list, each element of the first is at most each of the second.
pub IsSorted-parts {ℓ} :
    {A : Type ℓ} (le : A → A → Bool) (xs ys : List A)
    → IsSorted le (xs ++ ys)
    → All (λ x. All (λ y. le x y ≡ true) ys) xs
IsSorted-parts le [] ys h = tt
IsSorted-parts le (x ∷ xs) ys h =
    (All-tail (λ y. le x y ≡ true) xs ys h.0, IsSorted-parts le xs ys h.1)

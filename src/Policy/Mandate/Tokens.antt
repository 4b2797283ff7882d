-- ===== src/Policy/Mandate/Tokens.antt =====
-- What a signature binds: the reduction of a re-pointed token to an HMAC collision.
use reclaim_os.Prelude.{
  ℕ, ◌+◌, Text, codes, ◌≡◌, ◌≢◌, refl, sym, ap, ◌∙◌, subst, true, ◌⊎◌, inl, inr, arith, [], ◌∷◌,
  ◌++◌, All, length, text_eq, text_eq_iff, append-cancel, Bool-cases, append_split,
}
use reclaim_os.Prelude.Int.{ℤ, pos, negsuc}
use reclaim_os.Prelude.Decimal.{decimal, decimal-All, decimal-injective}
use reclaim_os.Domain.Models.{Method, upi_autopay, card, emandate, method_value}
use reclaim_os.Policy.Mandate.{Signing, MandateToken, int_text, material, sign, verify}

abbrev NoBar : Text → Type 0
NoBar = All (λ c. c ≢ b'|')

NoBar-inside : (b w : Text) → ¬ NoBar (b ++ b'|' ∷ w)
NoBar-inside [] w h = h.0 refl
NoBar-inside (y ∷ b) w h = NoBar-inside b w h.1

-- What stands before the first bar.
split_first :
    (a b v w : Text) → NoBar a → NoBar b → a ++ b'|' ∷ v ≡ b ++ b'|' ∷ w → (a ≡ b) × (v ≡ w)
split_first [] [] v w ha hb e = (refl, cc)
split_first [] (y ∷ b) v w ha hb e = absurd (hb.0 (cc))
split_first (x ∷ a) [] v w ha hb e = absurd (ha.0 (cc))
split_first (x ∷ a) (y ∷ b) v w ha hb e =
    let rest = split_first a b v w ha.1 hb.1 (cc) in (cc (rest.0), rest.1)

int_text-NoBar : (n : ℤ) → NoBar (int_text n)
unfolding int_text
int_text-NoBar (pos n) = decimal-All (λ c. c ≢ b'|') (λ d h. omega arith) n
int_text-NoBar (negsuc n) = (omega arith, decimal-All (λ c. c ≢ b'|') (λ d h. omega arith) (n + 1))

not_minus : (n : ℕ) (t : Text) → decimal n ≢ b'-' ∷ t
not_minus n t e =
    (subst (All (λ c. c ≢ b'-')) e (decimal-All (λ c. c ≢ b'-') (λ d h. omega arith) n)).0 refl

int_text-injective : (m n : ℤ) → int_text m ≡ int_text n → m ≡ n
unfolding int_text
int_text-injective (pos m) (pos n) e = ap pos (decimal-injective m n e)
int_text-injective (pos m) (negsuc n) e = absurd (not_minus m (decimal (n + 1)) e)
int_text-injective (negsuc m) (pos n) e = absurd (not_minus n (decimal (m + 1)) (sym e))
int_text-injective (negsuc m) (negsuc n) e =
    let same = decimal-injective (m + 1) (n + 1) (append-cancel (codes "-") e) in
    ap negsuc (omega (arith, same))

method_value-NoBar : (m : Method) → NoBar (method_value m)
unfolding method_value
method_value-NoBar upi_autopay = omega arith
method_value-NoBar card = omega arith
method_value-NoBar emandate = omega arith

method_value-injective : (m n : Method) → method_value m ≡ method_value n → m ≡ n
unfolding method_value
method_value-injective upi_autopay n e = ground arith
method_value-injective _ n e = ground arith

module _ (g : Signing) where
  -- What the signature covers is the same.
  abbrev pub SameCharge : MandateToken → MandateToken → Type 0
  SameCharge t u =
      (t.fingerprint ≡ u.fingerprint)
      × (t.amount_paise ≡ u.amount_paise)
      × (t.method ≡ u.method)
      × (g.isoformat t.at ≡ g.isoformat u.at)

  abbrev pub HmacCollision : Type 0
  HmacCollision = (x : Text) × (y : Text) × (x ≢ y) × (g.hmac_hex x ≡ g.hmac_hex y)

  abbrev signed : MandateToken → Text
  signed t = material g t.fingerprint t.amount_paise t.method t.at

  signed-injective :
      (t u : MandateToken)
      → length t.fingerprint ≡ length u.fingerprint
      → signed t ≡ signed u
      → SameCharge t u
  unfolding material
  signed-injective t u n e =
      let (prints, rest) = append_split t.fingerprint u.fingerprint n e in
      let (amounts, rest') =
        split_first (int_text t.amount_paise) (int_text u.amount_paise) _ _
          (int_text-NoBar t.amount_paise) (int_text-NoBar u.amount_paise)
          (append-cancel (codes "|") rest) in
      let (rails, times) =
        split_first (method_value t.method) (method_value u.method) _ _
          (method_value-NoBar t.method) (method_value-NoBar u.method) rest' in
      (
        prints,
        int_text-injective t.amount_paise u.amount_paise amounts,
        method_value-injective t.method u.method rails,
        times,
      )

  -- Two tokens that carry one signature, both verify and have fingerprints of one length (they
  -- are SHA-256 digests) agree in the fingerprint of their mandate, the amount, the rail and the
  -- isoformat text of the time, unless two different texts with one HMAC are at hand. Their
  -- reason codes are not signed, and may differ.
  pub signature_binds :
      (t u : MandateToken)
      → length t.fingerprint ≡ length u.fingerprint
      → t.signature ≡ u.signature
      → verify g t ≡ true
      → verify g u ≡ true
      → HmacCollision ⊎ SameCharge t u
  unfolding verify sign
  signature_binds t u n same ht hu =
      let st = (text_eq_iff (g.hmac_hex (signed t)) t.signature).0 ht in
      let su = (text_eq_iff (g.hmac_hex (signed u)) u.signature).0 hu in
      elim (Bool-cases (text_eq (signed t) (signed u))) [
        | inl e ↦ inr (signed-injective t u n ((text_eq_iff (signed t) (signed u)).0 e))
        | inr e ↦ inl (
          signed t,
          signed u,
          (λ p. ground (arith, text_eq_iff (signed t) (signed u))),
          st ∙ same ∙ sym su,
        )
      ]

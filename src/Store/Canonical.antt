-- ===== src/Store/Canonical.antt =====
-- src/reclaimos/store/canonical.py: payload values, the refusal of float money, and the link
-- of the hash chain. `json.dumps` and SHA-256 belong to Python's library and are parameters.
pub mod FloatMoney
use reclaim_os.Prelude.{
  ℕ, Text, codes, Bool, true, false, ◌&&◌, List, [], ◌∷◌, ◌++◌, text_eq, if◌then◌else◌, ◌≡◌, ◌⊎◌,
  inl, inr, refl, arith,
}
use reclaim_os.Prelude.Int.{ℤ}

-- A runtime value of a payload. A float is kept by its `repr`; `opaque` is any value that
-- `json.dumps` hands to `_encode` and that `_encode` refuses.
mutual
  pub data Value : Type 0 where
    null : Value
    bool : Bool → Value
    int : ℤ → Value
    float : Text → Value
    str : Text → Value
    isoformat : Text → Value
    enum : Text → Value
    opaque : Text → Value
    array : Items → Value
    object : Fields → Value

  pub data Items : Type 0 where
    nil : Items
    cons : Value → Items → Items

  pub data Fields : Type 0 where
    end : Fields
    field : Text → Value → Fields → Fields

pub data Outcome {ℓ} (A : Type ℓ) : Type ℓ where
  done : A → Outcome A
  non_canonical : Outcome A

pub Outcome-cases {ℓ} :
    {A : Type ℓ} (o : Outcome A) → (o ≡ non_canonical) ⊎ ((a : A) × (o ≡ done a))
Outcome-cases non_canonical = inl refl
Outcome-cases (done a) = inr (a, refl)

-- Does `key` end with "_paise"?
unfoldable pub ends_with : Text → Text → Bool
ends_with suffix [] = text_eq suffix []
ends_with suffix (c ∷ s) =
    let rest = ends_with suffix s in if text_eq suffix (c ∷ s) then true else rest

abbrev pub paise_suffix : Text
paise_suffix = codes "_paise"

abbrev pub is_float : Value → Bool
is_float (float _) = true
is_float _ = false

-- `_reject_float_money`: true when it returns, false when it raises.
unfoldable mutual
  pub money_is_integer : Value → Bool
  money_is_integer (object fs) = fields_are_integer fs
  money_is_integer (array xs) = items_are_integer xs
  money_is_integer null = true
  money_is_integer (bool _) = true
  money_is_integer (int _) = true
  money_is_integer (float _) = true
  money_is_integer (str _) = true
  money_is_integer (isoformat _) = true
  money_is_integer (enum _) = true
  money_is_integer (opaque _) = true

  pub items_are_integer : Items → Bool
  items_are_integer nil = true
  items_are_integer (cons x xs) = if money_is_integer x then items_are_integer xs else false

  pub fields_are_integer : Fields → Bool
  fields_are_integer end = true
  fields_are_integer (field k v fs) =
      if ends_with paise_suffix k && is_float v
      then false
      else if money_is_integer v
      then fields_are_integer fs
      else false

-- `_encode` is the `default=` hook: it has an answer for dates, enums and bytes (which are
-- values of their own above), and raises on anything else.
unfoldable mutual
  pub encodable : Value → Bool
  encodable (opaque _) = false
  encodable (object fs) = encodable_fields fs
  encodable (array xs) = encodable_items xs
  encodable null = true
  encodable (bool _) = true
  encodable (int _) = true
  encodable (float _) = true
  encodable (str _) = true
  encodable (isoformat _) = true
  encodable (enum _) = true

  pub encodable_items : Items → Bool
  encodable_items nil = true
  encodable_items (cons x xs) = if encodable x then encodable_items xs else false

  pub encodable_fields : Fields → Bool
  encodable_fields end = true
  encodable_fields (field k v fs) = if encodable v then encodable_fields fs else false

-- The hash chain starts at 64 zeros.
abbrev pub genesis_hash : Text
genesis_hash = codes "0000000000000000000000000000000000000000000000000000000000000000"

-- `json.dumps(payload, sort_keys=True, …)` on encodable values is the parameter `dumps`.
unfoldable pub canonical_json : (Value → Text) → Value → Outcome Text
canonical_json dumps payload =
    if money_is_integer payload
    then if encodable payload then done (dumps payload) else non_canonical
    else non_canonical

pub canonical_json-done :
    (dumps : Value → Text) (v : Value) (text : Text)
    → canonical_json dumps v ≡ done text
    → text ≡ dumps v
unfolding canonical_json
canonical_json-done dumps v text h = ground arith

-- `sha256(prev_hash || payload_json)`, with `sha256_hex` the parameter `sha`.
unfoldable pub chain_hash : (Text → Text) → Text → Text → Text
chain_hash sha prev_hash payload_json = sha (prev_hash ++ payload_json)

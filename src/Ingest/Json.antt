-- ===== src/Ingest/Json.antt =====
-- The Python that ingest/ calls, and how src/reclaimos/ingest/webhook.py reads a JSON body.
use reclaim_os.Prelude.{
  Text, codes, Bool, true, false, ◌&&◌, ◌||◌, Option, none, some, [], ◌∷◌, text_eq,
}
use reclaim_os.Prelude.Dict.{is_some}
use reclaim_os.Store.Canonical.{Value, object, str, int, float, bool}
use reclaim_os.Policy.Executor.Results.{get_field}

-- A result, or a ValueError with its text.
pub data Parsed {ℓ} (A : Type ℓ) : Type ℓ where
  parsed : A → Parsed A
  value_error : Text → Parsed A

-- `datetime.fromtimestamp`: an instant, a ValueError with its text, or an OverflowError or OSError.
pub data Instant : Type 0 where
  instant : Text → Instant
  bad_timestamp : Text → Instant
  out_of_range : Instant

pub record Python : Type 0 where
  -- HMAC-SHA256 in hex: of the secret, then the body
  pub hmac_hex : Text → Text → Text
  pub sha256_hex : Text → Text
  pub strip : Text → Text
  -- decode and json.loads
  pub json_loads : Text → Parsed Value
  pub json_dumps : Value → Text
  pub read_json : Text → Value
  -- fromtimestamp(…).isoformat() of an int or a float
  pub from_timestamp : Value → Instant

-- d.get(key) of a JSON object
unfoldable pub get_value : Text → Value → Option Value
get_value k (object fs) = get_field k fs
get_value k _ = none

-- isinstance(x, dict)
abbrev pub is_object : Value → Bool
is_object (object _) = true
is_object _ = false

-- isinstance(x, int | float): a bool is an int.
abbrev pub is_number : Option Value → Bool
is_number (some (int _)) = true
is_number (some (float _)) = true
is_number (some (bool _)) = true
is_number _ = false

abbrev then_get : Text → Option Value → Option Value
then_get k none = none
then_get k (some v) = get_value k v

abbrev pub as_text : Option Value → Option Text
as_text (some (str t)) = some t
as_text _ = none

-- `_extract`: what is not a dict, on the way, has no field.
unfoldable pub extract : Value → Text → Text → Option Text
unfolding get_value
extract raw entity name =
    as_text (
      then_get name (then_get (codes "entity") (then_get entity (get_value (codes "payload") raw))))

-- `_distinguishing`
unfoldable pub distinguishing : Value → Bool
distinguishing raw =
    is_number (get_value (codes "created_at") raw)
    && (is_some (extract raw (codes "payment") (codes "id"))
        || (is_some (extract raw (codes "subscription") (codes "id"))
            || (is_some (extract raw (codes "invoice") (codes "id"))
                || is_some (extract raw (codes "order") (codes "id")))))

-- `a or b` of optional texts: an empty text is false.
abbrev pub or_else : Option Text → Option Text → Option Text
or_else none b = b
or_else (some []) b = b
or_else (some (c ∷ s)) b = some (c ∷ s)

abbrev pub text_is : Text → Option Value → Bool
text_is s v = elim (as_text v) [ none ↦ false | some t ↦ text_eq t s ]

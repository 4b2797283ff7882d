-- ===== src/Policy/Executor/Results.antt =====
-- The results that the executor records, and how it reads one back.
use reclaim_os.Prelude.{Text, codes, Bool, false, Option, none, some, text_eq, if◌then◌else◌}
use reclaim_os.Prelude.Int.{ℤ, pos}
use reclaim_os.Store.Canonical.{Value, Fields, object, field, end, null, bool, int, str}
use reclaim_os.Store.Idempotency.{Claim}

-- What a replay takes from a recorded result.
pub record StoredResult : Type 0 where
  pub succeeded : Bool
  pub amount_paise : ℤ
  pub reference : Option Text

abbrev pub reference_value : Option Text → Value
reference_value none = null
reference_value (some t) = str t

-- The dict that `execute_charge` records.
unfoldable pub stored_value : Bool → ℤ → Option Text → Text → Value
stored_value succeeded amount reference now = object (
    field (codes "succeeded") (bool succeeded) (
      field (codes "amount_paise") (int amount) (
        field (codes "reference") (reference_value reference)
          (field (codes "recorded_at") (str now) end))))

-- The dict that `execute_contact` records.
unfoldable pub contact_value : Bool → Option Text → Text → Value
contact_value succeeded reference now = object (
    field (codes "succeeded") (bool succeeded) (
      field (codes "reference") (reference_value reference)
        (field (codes "recorded_at") (str now) end)))

-- d.get(key)
unfoldable pub get_field : Text → Fields → Option Value
get_field k end = none
get_field k (field j v fs) = if text_eq j k then some v else get_field k fs

-- bool(…), int(…) and the field's type, on the values that the executor records under these
-- keys. none is an exception; what else Python would convert is none here too.
abbrev as_bool : Option Value → Option Bool
as_bool none = some false
as_bool (some (bool b)) = some b
as_bool (some _) = none

abbrev as_int : Option Value → Option ℤ
as_int none = some (pos 0)
as_int (some (int n)) = some n
as_int (some _) = none

abbrev as_reference : Option Value → Option (Option Text)
as_reference none = some none
as_reference (some null) = some none
as_reference (some (str t)) = some (some t)
as_reference (some _) = none

abbrev combine : Option Bool → Option ℤ → Option (Option Text) → Option StoredResult
combine (some b) (some n) (some r) =
    some (record { succeeded = b; amount_paise = n; reference = r })
combine _ _ _ = none

unfoldable pub read_fields : Fields → Option StoredResult
unfolding get_field text_eq
read_fields fs =
    combine (as_bool (get_field (codes "succeeded") fs))
      (as_int (get_field (codes "amount_paise") fs))
      (as_reference (get_field (codes "reference") fs))

unfoldable pub read_value : Value → Option StoredResult
unfolding read_fields
read_value (object fs) = read_fields fs
read_value _ = none

-- `prior.result if prior and prior.result else {}`, then the three reads.
unfoldable pub read_result : Option Claim → Option StoredResult
read_result none = read_fields end
read_result (some c) = elim c.result [ none ↦ read_fields end | some v ↦ read_value v ]

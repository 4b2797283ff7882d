-- ===== src/Ingest/Signature.antt =====
-- src/reclaimos/ingest/signature.py: the check of a webhook's signature.
use reclaim_os.Prelude.{
  Text, Bool, false, not, ◌&&◌, ◌||◌, Option, none, some, any, is_empty, ltb, text_eq,
  if◌then◌else◌,
}
use reclaim_os.Ingest.Json.{Python}

abbrev is_ascii : Text → Bool
is_ascii s = not (any (λ c. ltb 127 c) s)

-- `hmac.compare_digest` of two `str`: a TypeError (none) unless both are ASCII.
unfoldable pub compare_digest : Text → Text → Option Bool
compare_digest a b = if is_ascii a && is_ascii b then some (text_eq a b) else none

module _ (py : Python) where
  unfoldable pub verify_signature : Text → Option Text → Text → Option Bool
  unfolding compare_digest
  verify_signature body none secret = some false
  verify_signature body (some signature) secret =
      if is_empty signature || is_empty secret
      then some false
      else compare_digest (py.hmac_hex secret body) (py.strip signature)

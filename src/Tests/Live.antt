-- ===== src/Tests/Live.antt =====
-- A session of the receiver: a signed POST, a forged one and one on another path.
use reclaim_os.Prelude.{
  Text, codes, ◌≡◌, ◌≢◌, true, false, none, some, List, [], ◌∷◌, ◌++◌, text_eq, if◌then◌else◌,
}
use reclaim_os.Store.Canonical.{object, field, end, str}
use reclaim_os.Store.Events.{count_events}
use reclaim_os.Ingest.Json.{Python, parsed, instant}
use reclaim_os.Ingest.Signature.{verify_signature, compare_digest}
use reclaim_os.Live.Receiver.{Request, ReceiverState, header_of, do_post, serve}
use reclaim_os.Live.Receiver.Answers.{
  signature_of, is_ok, IsRecorded, serve-IsRecorded, do_post-forged,
}
use reclaim_os.Tests.Fixtures.{sha, dumps, loads}

abbrev py : Python
py = record {
  hmac_hex = λ secret body. secret ++ body;
  sha256_hex = sha;
  strip = λ s. s;
  json_loads = λ body. parsed (
      object (field (codes "entity") (str (codes "event")) (field (codes "event") (str body) end)));
  json_dumps = dumps;
  read_json = loads;
  from_timestamp = λ v. instant (codes "t");
}

abbrev post : Text → Text → Request
post path signature = record {
  now = codes "now";
  uuid = codes "u";
  path = path;
  get_header = λ k. if text_eq k (codes "x-razorpay-signature") then some signature else none;
  body = codes "b";
}

abbrev listening : ReceiverState
listening = record {
  webhook_secret = codes "s";
  events = record { rows = []; autoincrement = 0 };
  deliveries = [];
}

abbrev session : List Request
session =
    post (codes "/webhook/razorpay/") (codes "sb")
    ∷ (post (codes "/webhook/razorpay") (codes "xx") ∷ (post (codes "/other") (codes "sb") ∷ []))

serve-IsRecorded_example :
    IsRecorded py
      (λ t. t)
      dumps
      listening
      (serve py (λ t. t) dumps session listening).0
      (serve py (λ t. t) dumps session listening).1
serve-IsRecorded_example = serve-IsRecorded py (λ t. t) dumps session listening

abbrev forged : Request
forged = post (codes "/webhook/razorpay") (codes "xx")

forged_not_verified :
    verify_signature py forged.body (signature_of forged) listening.webhook_secret ≢ some true
unfolding verify_signature compare_digest header_of text_eq
forged_not_verified e = cc

do_post-forged_example :
    (is_ok (do_post py (λ t. t) dumps forged listening).0 ≡ false)
    × (count_events true (do_post py (λ t. t) dumps forged listening).1.events
        ≡ count_events true listening.events)
do_post-forged_example = do_post-forged py (λ t. t) dumps forged listening forged_not_verified

-- ===== src/EnvelopeAuth/Tests.antt =====
-- A node "n1" that signs under the key "default", and a verifier that allows it.
use autobyteus_server_ts.Common.{
  if◌then◌else◌, Bool-cases, ok, ℕ, String, ◌≡◌, refl, ◌≢◌, ◌↔◌, ◌⊎◌, inl, inr, ◌&&◌, none, some,
  List, [], ◌∷◌, arith, str_eq,
}
use autobyteus_server_ts.Common.Text.{normalize, normalize_optional, IsNormal, join, trim}
use autobyteus_server_ts.Common.Dict.{get}
use autobyteus_server_ts.EnvelopeAuth.{
  Json, scalar, object, entry, no_entries, pos, text, Headers, strict_signed, trusted_lan,
  EnvelopeAuth, AuthOptions, new_auth, prune_nonces,
}
use autobyteus_server_ts.EnvelopeAuth.Envelope.{
  secure_compare_hex, check_signature, verify_signed, read_timestamp, read_source,
  sign_canonical_payload, insert_entry, sort_entries, Platform, VerifyInput, stable_stringify,
  expected_signature, verify_request, sign_request,
}
use autobyteus_server_ts.EnvelopeAuth.Acceptance.{IsTimely, IsSigned, verify_request-accepted_iff}
use autobyteus_server_ts.EnvelopeAuth.Signing.{verify_request-sign_request}
use autobyteus_server_ts.EnvelopeAuth.Replay.{verify_all, verify_request-replay}

-- Digests that tell the body's hash from a payload's, which suffices for these runs.
abbrev digest : String → String → String
digest secret payload = if str_eq secret "s" then "aa" else "bb"

abbrev codes : String → List ℕ
codes s = if str_eq s "aa" then 170 ∷ [] else if str_eq s "bb" then 187 ∷ [] else []

abbrev platform : Platform
platform = record {
  hmac = digest;
  from_hex = codes;
  quote = λ s. s;
  before = λ a b. str_eq a "a" && str_eq b "b";
  number = λ s. if str_eq s "1000" then some (pos 1000) else none;
  secret_by_key_id = λ key. if str_eq key "default" then some "s" else none;
}

abbrev options : AuthOptions
options = record {
  local_node_id = " n1";
  default_key_id = none;
  allowed_node_ids = none;
  max_clock_skew_ms = none;
  nonce_ttl_ms = none;
}

abbrev sender : EnvelopeAuth
sender = record {
  local_node_id = "n1";
  default_key_id = "default";
  allowed_node_ids = none;
  max_clock_skew_ms = 30000;
  nonce_ttl_ms = 120000;
  nonce_seen_at_ms = [];
}

new_auth_test : new_auth options ≡ ok sender
unfolding new_auth normalize_optional normalize trim
new_auth_test = refl

abbrev verifier : EnvelopeAuth
verifier = record sender { local_node_id = "n2"; allowed_node_ids = some ("n1" ∷ []) }

abbrev body : Json
body = object (entry "b" (scalar "1") (entry "a" (scalar "2") no_entries))

stable_stringify_test : stable_stringify platform body ≡ "{a:2,b:1}"
unfolding stable_stringify join sort_entries insert_entry
stable_stringify_test = refl

abbrev signed : Headers
signed = record {
  node_id = text "n1";
  ts = text "1000";
  nonce = text "x";
  key_id = text "default";
  signature = text "aa";
}

abbrev request : VerifyInput
request = record { headers = signed; body = body; security_mode = strict_signed }

sign_request_test : sign_request platform sender "1000" "x" body ≡ ok signed
unfolding sign_request expected_signature sign_canonical_payload
sign_request_test = refl

digest-IsNormal : (secret payload : String) → IsNormal (digest secret payload)
digest-IsNormal secret payload = elim (Bool-cases (str_eq secret "s")) [
  | inl e ↦ rw e (unfold normalize trim in refl)
  | inr e ↦ rw e (unfold normalize trim in refl)
]

accepted : (verify_request platform verifier request 2000).0 ≡ ok "n1"
unfolding verify_request read_source normalize trim read_timestamp verify_signed get prune_nonces
    check_signature secure_compare_hex expected_signature sign_canonical_payload
accepted = refl

verify_request-sign_request_example : (verify_request platform verifier request 2000).0 ≡ ok "n1"
unfolding get
verify_request-sign_request_example =
    verify_request-sign_request platform options sender verifier "1000" "x" body signed 1000 2000
      digest-IsNormal new_auth_test sign_request_test (unfold normalize trim in refl)
      (unfold normalize trim in refl) refl (omega arith) refl (unfold prune_nonces in refl)

-- A second request comes between, and the first again at the time 5000.
verify_request-replay_example :
    (verify_request platform
      (verify_all platform
        (verify_request platform verifier request 2000).1
        ((record request { headers = record signed { nonce = text "y" } }, 3000) ∷ []))
      request
      5000).0
    ≢ ok "n1"
verify_request-replay_example =
    verify_request-replay platform verifier request request 2000 5000 "n1" "n1" _ (omega arith)
      ((omega arith, omega arith), tt) (omega arith) refl refl refl refl refl accepted

verify_request-accepted_iff_example :
    ((verify_request platform verifier request 2000).0 ≡ ok "n1") ↔ (
      (timestamp : String) × IsTimely platform verifier signed 2000 "n1" timestamp
      × ((strict_signed ≡ trusted_lan) ⊎ (IsSigned platform verifier request 2000 "n1" timestamp)))
verify_request-accepted_iff_example =
    verify_request-accepted_iff platform verifier request 2000 "n1"

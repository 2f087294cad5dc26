-- ===== src/EnvelopeAuth/Envelope.antt =====
-- Signing and checking of one request.
use autobyteus_server_ts.Common.{
  ltb, ◌==◌, if◌then◌else◌, Result, ok, err, ◌>>=◌, or_throw, ℕ, String, Bool, true, false, ◌&&◌,
  Option, none, some, List, [], ◌∷◌, map, str_eq,
}
use autobyteus_server_ts.Common.Text.{join}
use autobyteus_server_ts.Common.Dict.{has}
use autobyteus_server_ts.EnvelopeAuth.{
  Json, scalar, array, object, Items, no_items, item, Entries, no_entries, entry, ℤ, text, Headers,
  SecurityMode, strict_signed, trusted_lan, Rejection, missing_source_node, source_node_not_allowed,
  missing_timestamp, invalid_timestamp, timestamp_out_of_range, missing_nonce, replay_detected,
  missing_key_id, missing_signature, unknown_key_id, invalid_signature, Error, no_secret,
  EnvelopeAuth, normalize_header, build_canonical_payload, build_nonce_key, prune_nonces,
  register_nonce, distance, is_allowed,
}

-- The parameters: `createHmac("sha256", secret).update(text).digest("hex")`, `Buffer.from(_, "hex")`
-- with equality of its bytes, `JSON.stringify` of a text, `localeCompare(_, _) < 0`, `Number` where
-- it is finite, and `resolveSecretByKeyId`.
pub record Platform : Type 0 where
  pub hmac : String → String → String
  pub from_hex : String → List ℕ
  pub quote : String → String
  pub before : String → String → Bool
  pub number : String → Option ℤ
  pub secret_by_key_id : String → Option String

pub record VerifyInput : Type 0 where
  pub headers : Headers
  pub body : Json
  pub security_mode : SecurityMode

-- `Array.sort` is stable: a field goes in front of its equals.
unfoldable pub insert_entry :
    (String → String → Bool) → String × String → List (String × String) → List (String × String)
insert_entry before e [] = e ∷ []
insert_entry before e (f ∷ fs) = if before f.0 e.0 then f ∷ insert_entry before e fs else e ∷ f ∷ fs

unfoldable pub sort_entries :
    (String → String → Bool) → List (String × String) → List (String × String)
sort_entries before [] = []
sort_entries before (e ∷ es) = insert_entry before e (sort_entries before es)

abbrev pub entry_text : Platform → String × String → String
entry_text p (key, value) = join ":" (p.quote key ∷ value ∷ [])

-- The values are written before the sort, which looks at the keys only.
unfoldable mutual
  pub stable_stringify : Platform → Json → String
  stable_stringify p (scalar s) = s
  stable_stringify p (array xs) = join "" ("[" ∷ join "," (stringify_items p xs) ∷ "]" ∷ [])
  stable_stringify p (object es) = join "" (
      "{"
      ∷ join "," (map (entry_text p) (sort_entries p.before (stringify_entries p es)))
      ∷ "}"
      ∷ [])

  pub stringify_items : Platform → Items → List String
  stringify_items p no_items = []
  stringify_items p (item x xs) = stable_stringify p x ∷ stringify_items p xs

  pub stringify_entries : Platform → Entries → List (String × String)
  stringify_entries p no_entries = []
  stringify_entries p (entry k x es) = (k, stable_stringify p x) ∷ stringify_entries p es

unfoldable pub hash_body : Platform → Json → String
hash_body p body = p.hmac "autobyteus-internal-envelope-body" (stable_stringify p body)

unfoldable pub bytes_eq : List ℕ → List ℕ → Bool
bytes_eq [] [] = true
bytes_eq (x ∷ xs) (y ∷ ys) = (x == y) && bytes_eq xs ys
bytes_eq [] (y ∷ ys) = false
bytes_eq (x ∷ xs) [] = false

unfoldable pub secure_compare_hex : Platform → String → String → Bool
unfolding bytes_eq
secure_compare_hex p left right = bytes_eq (p.from_hex left) (p.from_hex right)

-- `!secret` holds of the empty secret too.
abbrev pub secret_of : Platform → String → Option String
secret_of p key = elim (p.secret_by_key_id key) [
  | none ↦ none
  | some s ↦ if str_eq s "" then none else some s
]

unfoldable pub sign_canonical_payload : Platform → String → String → String
sign_canonical_payload p secret payload = p.hmac secret payload

unfoldable pub expected_signature : Platform → String → String → String → String → Json → String
expected_signature p secret source timestamp nonce body =
    sign_canonical_payload p secret
      (build_canonical_payload source timestamp nonce (hash_body p body))

unfoldable pub sign_request :
    Platform → EnvelopeAuth → (timestamp nonce : String) → Json → Result Error Headers
sign_request p a timestamp nonce body = do
  secret ← or_throw (secret_of p a.default_key_id) (no_secret a.default_key_id)
  ok (record {
    node_id = text a.local_node_id;
    ts = text timestamp;
    nonce = text nonce;
    key_id = text a.default_key_id;
    signature = text (expected_signature p secret a.local_node_id timestamp nonce body);
  })

unfoldable pub read_source : EnvelopeAuth → Headers → Result Rejection String
read_source a h = do
  source ← or_throw (normalize_header h.node_id) missing_source_node
  if is_allowed a.allowed_node_ids source then ok source else err (source_node_not_allowed source)

unfoldable pub read_timestamp : Platform → EnvelopeAuth → Headers → ℕ → Result Rejection String
read_timestamp p a h now = do
  raw ← or_throw (normalize_header h.ts) missing_timestamp
  time ← or_throw (p.number raw) invalid_timestamp
  if ltb a.max_clock_skew_ms (distance now time) then err timestamp_out_of_range else ok raw

-- From the key id to the comparison of signatures.
unfoldable pub check_signature :
    Platform → Headers → Json → (source timestamp nonce : String) → Result Rejection (Unit {0})
check_signature p h body source timestamp nonce = do
  key ← or_throw (normalize_header h.key_id) missing_key_id
  signature ← or_throw (normalize_header h.signature) missing_signature
  secret ← or_throw (secret_of p key) (unknown_key_id key)
  if secure_compare_hex p (expected_signature p secret source timestamp nonce body) signature
      then ok tt
      else err invalid_signature

-- The nonce is looked up before the signature is checked, and kept only after.
unfoldable pub verify_signed :
    Platform
    → EnvelopeAuth
    → VerifyInput
    → ℕ
    → (source timestamp : String) → Result Rejection String × EnvelopeAuth
verify_signed p a input now source timestamp = elim (normalize_header input.headers.nonce) [
  | none ↦ (err missing_nonce, a)
  | some nonce ↦
      let pruned = prune_nonces a now in
      if has pruned.nonce_seen_at_ms (build_nonce_key source nonce)
      then (err replay_detected, pruned)
      else elim (check_signature p input.headers input.body source timestamp nonce) [
        | err e ↦ (err e, pruned)
        | ok _ ↦ (ok source, register_nonce pruned source nonce now)
      ]
]

abbrev pub is_trusted_lan : SecurityMode → Bool
is_trusted_lan trusted_lan = true
is_trusted_lan strict_signed = false

unfoldable pub verify_request :
    Platform → EnvelopeAuth → VerifyInput → ℕ → Result Rejection String × EnvelopeAuth
verify_request p a input now = elim (read_source a input.headers) [
  | err e ↦ (err e, a)
  | ok source ↦ elim (read_timestamp p a input.headers now) [
    | err e ↦ (err e, a)
    | ok timestamp ↦
        if is_trusted_lan input.security_mode
        then (ok source, a)
        else verify_signed p a input now source timestamp
  ]
]

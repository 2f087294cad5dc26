-- ===== src/EnvelopeAuth/Signing.antt =====
-- What a node signs is accepted.
use autobyteus_server_ts.Common.{
  Result, none, List, ◌∷◌, [], none, some, [], ◌∷◌, Option, get_or, Option-cases, ok, or_throw,
  >>=-eq-ok, or_throw-eq-ok, ℕ, ◌≤◌, String, ◌≡◌, refl, sym, inl, inr, true, false, some, List, [],
  ◌∷◌, arith,
}
use autobyteus_server_ts.Common.Dict.{has}
use autobyteus_server_ts.Common.Text.{
  normalize, normalize_optional, IsNormal, normalize-IsNormal, trim,
}
use autobyteus_server_ts.EnvelopeAuth.{
  text, no_secret, AuthOptions, new_auth, empty_field, Json, Headers, EnvelopeAuth, build_nonce_key,
  prune_nonces, distance, is_allowed, strict_signed, pos,
}
use autobyteus_server_ts.EnvelopeAuth.Envelope.{
  sign_canonical_payload, bytes_eq, sign_request, Platform, VerifyInput, secure_compare_hex,
  secret_of, expected_signature, verify_request,
}
use autobyteus_server_ts.EnvelopeAuth.Acceptance.{
  IsTimely, IsSigned, IsTimely-verify, IsSigned-accepted,
}

ok-injective {ℓ κ} :
    {E : Type ℓ} {A : Type κ} (a b : A) → ◌≡◌ {A = Result E A} (ok a) (ok b) → a ≡ b
ok-injective a b e = cc

bytes_eq_refl : (xs : List ℕ) → bytes_eq xs xs ≡ true
unfolding bytes_eq
bytes_eq_refl [] = refl
bytes_eq_refl (x ∷ xs) = ground (arith, bytes_eq_refl xs)

default_key-IsNormal : (key : Option String) → IsNormal (get_or (normalize_optional key) "default")
unfolding normalize_optional
default_key-IsNormal none = unfold normalize trim in refl
default_key-IsNormal (some key) = elim (Option-cases (normalize key)) [
  | inl e ↦ rw e (unfold normalize trim in refl)
  | inr (t, e) ↦ rw e (normalize-IsNormal key t e)
]

new_auth-IsNormal :
    (o : AuthOptions) (a : EnvelopeAuth)
    → new_auth o ≡ ok a
    → IsNormal a.local_node_id × IsNormal a.default_key_id
unfolding new_auth
new_auth-IsNormal o a h =
    let (local, e, made) =
      >>=-eq-ok (or_throw (normalize o.local_node_id) (empty_field "localNodeId")) _ h in
    ground (
      arith,
      normalize-IsNormal o.local_node_id local (or_throw-eq-ok _ _ e),
      default_key-IsNormal o.default_key_id,
      made,
    )

-- A request that a node has signed is accepted by any node that allows it, shares its secret and
-- has not seen the nonce, as long as the time stamp is within the skew allowed. It is assumed that
-- digests, the time stamp and the nonce neither are blank nor begin or end in white space.
pub verify_request-sign_request :
    (p : Platform) (o : AuthOptions) (sender a : EnvelopeAuth) (timestamp nonce : String)
    (body : Json) (h : Headers) (sent now : ℕ)
    → ((secret payload : String) → IsNormal (p.hmac secret payload))
    → new_auth o ≡ ok sender
    → sign_request p sender timestamp nonce body ≡ ok h
    → IsNormal timestamp
    → IsNormal nonce
    → p.number timestamp ≡ some (pos sent)
    → distance now (pos sent) ≤ a.max_clock_skew_ms
    → is_allowed a.allowed_node_ids sender.local_node_id ≡ true
    → has (prune_nonces a now).nonce_seen_at_ms (build_nonce_key sender.local_node_id nonce) ≡ false
    → (verify_request p a
        (record { headers = h; body = body; security_mode = strict_signed })
        now).0
      ≡ ok sender.local_node_id
unfolding sign_request expected_signature sign_canonical_payload secure_compare_hex
verify_request-sign_request p o sender a timestamp nonce body h sent now digest made signed
      normal_ts normal_nonce number near allowed fresh =
    let (secret, known, headers) =
      >>=-eq-ok (or_throw (secret_of p sender.default_key_id) (no_secret sender.default_key_id)) _
        signed in
    let (normal_node, normal_key) = new_auth-IsNormal o sender made in
    let source = sender.local_node_id in
    let signature = expected_signature p secret source timestamp nonce body in
    let same : record {
      node_id = text source;
      ts = text timestamp;
      nonce = text nonce;
      key_id = text sender.default_key_id;
      signature = text signature;
    }
        ≡ h =
      ok-injective _ _ headers in
    let input : VerifyInput = record { headers = h; body = body; security_mode = strict_signed } in
    let timely : IsTimely p a h now source timestamp = record {
      source_given = rw (sym same) normal_node;
      allowed = allowed;
      timestamp_given = rw (sym same) normal_ts;
      in_range = (pos sent, number, near);
    } in
    let good : IsSigned p a input now source timestamp = record {
      nonce = nonce;
      key = sender.default_key_id;
      signature = signature;
      secret = secret;
      nonce_given = rw (sym same) normal_nonce;
      nonce_new = fresh;
      key_given = rw (sym same) normal_key;
      signature_given = rw (sym same) (digest secret _);
      secret_known = or_throw-eq-ok _ _ known;
      matches = bytes_eq_refl (p.from_hex signature);
    } in
    rw
      (
        IsTimely-verify p a input now source timestamp timely,
        IsSigned-accepted p a input now source timestamp good,
      )
      refl

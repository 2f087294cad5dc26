-- ===== src/EnvelopeAuth/Acceptance.antt =====
-- Which requests are accepted, and that a signed request is.
use autobyteus_server_ts.Common.{
  some, ltb, ltb, if◌then◌else◌, Bool-cases, Option-cases, ok, or_throw, Result-cases, >>=-eq-ok,
  or_throw-eq-ok, ℕ, ◌≤◌, String, ◌≡◌, refl, subst, ◌↔◌, ◌⊎◌, inl, inr, true, false, some, arith,
}
use autobyteus_server_ts.Common.Dict.{has}
use autobyteus_server_ts.EnvelopeAuth.{
  SecurityMode, ℤ, Headers, EnvelopeAuth, normalize_header, build_nonce_key, prune_nonces,
  register_nonce, distance, is_allowed, strict_signed, trusted_lan, missing_key_id,
  missing_signature, unknown_key_id,
}
use autobyteus_server_ts.EnvelopeAuth.Envelope.{
  Platform, VerifyInput, secure_compare_hex, secret_of, expected_signature, read_source,
  read_timestamp, check_signature, verify_signed, verify_request, is_trusted_lan,
}

-- What the checks in front of the signature have established.
pub record IsTimely (p : Platform) (a : EnvelopeAuth) (h : Headers) (now : ℕ)
    (source timestamp : String) : Type 0 where
  pub source_given : normalize_header h.node_id ≡ some source
  pub allowed : is_allowed a.allowed_node_ids source ≡ true
  pub timestamp_given : normalize_header h.ts ≡ some timestamp
  pub in_range : (t : ℤ) × (p.number timestamp ≡ some t) × (distance now t ≤ a.max_clock_skew_ms)

-- What the signature and the nonce of a request have to be.
pub record IsSigned (p : Platform) (a : EnvelopeAuth) (input : VerifyInput) (now : ℕ)
    (source timestamp : String) : Type 0 where
  pub nonce : String
  pub key : String
  pub signature : String
  pub secret : String
  pub nonce_given : normalize_header input.headers.nonce ≡ some nonce
  pub nonce_new : has (prune_nonces a now).nonce_seen_at_ms (build_nonce_key source nonce) ≡ false
  pub key_given : normalize_header input.headers.key_id ≡ some key
  pub signature_given : normalize_header input.headers.signature ≡ some signature
  pub secret_known : secret_of p key ≡ some secret
  pub matches :
      secure_compare_hex p (expected_signature p secret source timestamp nonce input.body) signature
      ≡ true

read_source_iff :
    (a : EnvelopeAuth) (h : Headers) (source : String)
    → (read_source a h ≡ ok source)
      ↔ ((normalize_header h.node_id ≡ some source) × (is_allowed a.allowed_node_ids source ≡ true))
unfolding read_source
read_source_iff a h source = ground arith

read_timestamp-given :
    (p : Platform) (a : EnvelopeAuth) (h : Headers) (now : ℕ) (timestamp : String)
    → read_timestamp p a h now ≡ ok timestamp
    → (normalize_header h.ts ≡ some timestamp)
      × ((t : ℤ) × (p.number timestamp ≡ some t) × (distance now t ≤ a.max_clock_skew_ms))
unfolding read_timestamp
read_timestamp-given p a h now timestamp e = elim (Option-cases (normalize_header h.ts)) [
  | inl n ↦ cc (rw (n, read_timestamp) at e)
  | inr (raw, n) ↦ elim (Option-cases (p.number raw)) [
    | inl m ↦ cc (rw (n, m, read_timestamp) at e)
    | inr (t, m) ↦ elim (Bool-cases (ltb a.max_clock_skew_ms (distance now t))) [
      | inl b ↦ cc (rw (n, m, b, read_timestamp) at e)
      | inr b ↦
          let same = rw (n, m, b, read_timestamp) at e in
          (ground (arith, n, same), (t, ground (arith, m, same), ground (arith, b)))
    ]
  ]
]

read_timestamp-accepts :
    (p : Platform) (a : EnvelopeAuth) (h : Headers) (now : ℕ) (timestamp : String) (t : ℤ)
    → normalize_header h.ts ≡ some timestamp
    → p.number timestamp ≡ some t
    → distance now t ≤ a.max_clock_skew_ms
    → read_timestamp p a h now ≡ ok timestamp
unfolding read_timestamp
read_timestamp-accepts p a h now timestamp t given number near = ground arith

check_signature-IsSigned :
    (p : Platform) (a : EnvelopeAuth) (input : VerifyInput) (now : ℕ)
    (source timestamp nonce : String) (u : Unit {0})
    → normalize_header input.headers.nonce ≡ some nonce
    → has (prune_nonces a now).nonce_seen_at_ms (build_nonce_key source nonce) ≡ false
    → check_signature p input.headers input.body source timestamp nonce ≡ ok u
    → IsSigned p a input now source timestamp
unfolding check_signature
check_signature-IsSigned p a input now source timestamp nonce u given fresh e =
    let (key, key_given, e1) =
      >>=-eq-ok (or_throw (normalize_header input.headers.key_id) missing_key_id) _ e in
    let (signature, signature_given, e2) =
      >>=-eq-ok (or_throw (normalize_header input.headers.signature) missing_signature) _ e1 in
    let (secret, secret_given, e3) =
      >>=-eq-ok (or_throw (secret_of p key) (unknown_key_id key)) _ e2 in
    record {
      nonce = nonce;
      key = key;
      signature = signature;
      secret = secret;
      nonce_given = given;
      nonce_new = fresh;
      key_given = or_throw-eq-ok _ _ key_given;
      signature_given = or_throw-eq-ok _ _ signature_given;
      secret_known = or_throw-eq-ok _ _ secret_given;
      matches = ground arith;
    }

verify_signed-accepted :
    (p : Platform) (a : EnvelopeAuth) (input : VerifyInput) (now : ℕ) (source timestamp x : String)
    → (verify_signed p a input now source timestamp).0 ≡ ok x
    → (source ≡ x) × IsSigned p a input now source timestamp
unfolding verify_signed
verify_signed-accepted p a input now source timestamp x h =
    elim (Option-cases (normalize_header input.headers.nonce)) [
      | inl e ↦ cc (rw (e, verify_signed) at h)
      | inr (nonce, e) ↦
          elim (Bool-cases
            (has (prune_nonces a now).nonce_seen_at_ms (build_nonce_key source nonce))) [
              | inl seen ↦ cc (rw (e, seen, verify_signed) at h)
              | inr new ↦
                  elim (Result-cases
                    (check_signature p input.headers input.body source timestamp nonce)) [
                      | inl (u, good) ↦ (
                        ground (arith, rw (e, new, good, verify_signed) at h),
                        check_signature-IsSigned p a input now source timestamp nonce u e new good,
                      )
                      | inr (y, bad) ↦ cc (rw (e, new, bad, verify_signed) at h)
                    ]
            ]
    ]

IsSigned-check :
    (p : Platform) (a : EnvelopeAuth) (input : VerifyInput) (now : ℕ) (source timestamp : String)
    (s : IsSigned p a input now source timestamp)
    → check_signature p input.headers input.body source timestamp s.nonce ≡ ok tt
unfolding check_signature
IsSigned-check p a input now source timestamp s =
    ground (arith, s.key_given, s.signature_given, s.secret_known, s.matches)

pub IsSigned-accepted :
    (p : Platform) (a : EnvelopeAuth) (input : VerifyInput) (now : ℕ) (source timestamp : String)
    (s : IsSigned p a input now source timestamp)
    → verify_signed p a input now source timestamp
      ≡ (ok source, register_nonce (prune_nonces a now) source s.nonce now)
unfolding verify_signed
IsSigned-accepted p a input now source timestamp s =
    rw (s.nonce_given, s.nonce_new, IsSigned-check p a input now source timestamp s, verify_signed)
      refl

pub IsTimely-verify :
    (p : Platform) (a : EnvelopeAuth) (input : VerifyInput) (now : ℕ) (source timestamp : String)
    → IsTimely p a input.headers now source timestamp
    → verify_request p a input now ≡ (
        if is_trusted_lan input.security_mode
        then (ok source, a)
        else verify_signed p a input now source timestamp)
unfolding verify_request
IsTimely-verify p a input now source timestamp t =
    let source_ok = (read_source_iff a input.headers source).1 (t.source_given, t.allowed) in
    let (time, number, near) = t.in_range in
    let time_ok =
      read_timestamp-accepts p a input.headers now timestamp time t.timestamp_given number near in
    rw (source_ok, time_ok, verify_request) refl

IsTimely-of_checks :
    (p : Platform) (a : EnvelopeAuth) (h : Headers) (now : ℕ) (source timestamp : String)
    → read_source a h ≡ ok source
    → read_timestamp p a h now ≡ ok timestamp
    → IsTimely p a h now source timestamp
IsTimely-of_checks p a h now source timestamp e e' =
    let (given, allowed) = (read_source_iff a h source).0 e in
    let (timestamp_given, near) = read_timestamp-given p a h now timestamp e' in
    record {
      source_given = given;
      allowed = allowed;
      timestamp_given = timestamp_given;
      in_range = near;
    }

trusted-mode : (m : SecurityMode) → is_trusted_lan m ≡ true → m ≡ trusted_lan
trusted-mode strict_signed e = cc
trusted-mode trusted_lan e = refl

verify_request-given :
    (p : Platform) (a : EnvelopeAuth) (input : VerifyInput) (now : ℕ) (source : String)
    → (verify_request p a input now).0 ≡ ok source
    → (timestamp : String) × IsTimely p a input.headers now source timestamp
      × ((input.security_mode ≡ trusted_lan) ⊎ (IsSigned p a input now source timestamp))
unfolding verify_request
verify_request-given p a input now source h = elim (Result-cases (read_source a input.headers)) [
  | inr (x, e) ↦ cc (rw (e, verify_request) at h)
  | inl (s, e) ↦ elim (Result-cases (read_timestamp p a input.headers now)) [
    | inr (x, e') ↦ cc (rw (e, e', verify_request) at h)
    | inl (timestamp, e') ↦
        let timely : IsTimely p a input.headers now s timestamp =
          IsTimely-of_checks p a input.headers now s timestamp e e' in
        elim (Bool-cases (is_trusted_lan input.security_mode)) [
          | inl lan ↦ (
            timestamp,
            subst (λ q. IsTimely p a input.headers now q timestamp)
                (ground (arith, rw (e, e', lan, verify_request) at h)) timely,
            inl (trusted-mode input.security_mode lan),
          )
          | inr strict ↦
              let (same, signed) =
                verify_signed-accepted p a input now s timestamp source
                  (rw (e, e', strict, verify_request) at h) in
              (
                timestamp,
                subst (λ q. IsTimely p a input.headers now q timestamp) same timely,
                inr (subst (λ q. IsSigned p a input now q timestamp) same signed),
              )
        ]
  ]
]

pub strict-IsSigned :
    (p : Platform) (a : EnvelopeAuth) (input : VerifyInput) (now : ℕ) (source : String)
    → input.security_mode ≡ strict_signed
    → (verify_request p a input now).0 ≡ ok source
    → (timestamp : String) × IsTimely p a input.headers now source timestamp
      × IsSigned p a input now source timestamp
strict-IsSigned p a input now source strict h =
    let (timestamp, timely, how) = verify_request-given p a input now source h in
    (timestamp, timely, elim how [ inl lan ↦ absurd (cc (rw strict at lan)) | inr s ↦ s ])

-- Exactly the requests of nodes that are allowed, within the allowed skew, and in strict mode
-- signed under a known key with a nonce not yet seen, are accepted.
pub verify_request-accepted_iff :
    (p : Platform) (a : EnvelopeAuth) (input : VerifyInput) (now : ℕ) (source : String)
    → ((verify_request p a input now).0 ≡ ok source) ↔ (
        (timestamp : String) × IsTimely p a input.headers now source timestamp
        × ((input.security_mode ≡ trusted_lan) ⊎ (IsSigned p a input now source timestamp)))
verify_request-accepted_iff p a input now source = (
  verify_request-given p a input now source,
  λ (timestamp, timely, how). rw (IsTimely-verify p a input now source timestamp timely) (elim how [
    | inl lan ↦ rw lan refl
    | inr s ↦ elim (Bool-cases (is_trusted_lan input.security_mode)) [
      | inl l ↦ rw l refl
      | inr l ↦ rw (l, IsSigned-accepted p a input now source timestamp s) refl
    ]
  ]),
)

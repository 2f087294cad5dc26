-- ===== src/EnvelopeAuth/Replay.antt =====
-- A signed request that was accepted is not accepted again.
use autobyteus_server_ts.Common.{
  All-map, le→leb, Bool-cases, Option-cases, All-map, is_some, ok, Result-cases, filter, All, ℕ,
  ◌+◌, ◌*◌, ◌≤◌, String, ◌≡◌, refl, sym, ap, ◌∙◌, ◌≢◌, inl, inr, Bool, true, some, List, [], ◌∷◌,
  arith, str_eq, str_eq_iff,
}
use autobyteus_server_ts.Common.Dict.{get-set_self, Dict, get, has, get-set}
use autobyteus_server_ts.EnvelopeAuth.{
  ℤ, EnvelopeAuth, normalize_header, build_nonce_key, prune_nonces, register_nonce, distance,
  strict_signed, pos, negsuc,
}
use autobyteus_server_ts.EnvelopeAuth.Envelope.{
  Platform, VerifyInput, read_source, read_timestamp, check_signature, verify_signed,
  verify_request, is_trusted_lan,
}
use autobyteus_server_ts.EnvelopeAuth.Acceptance.{
  IsTimely, IsSigned, strict-IsSigned, IsTimely-verify, IsSigned-accepted,
}

-- The requests of a sequence, each with the time it is checked at, one after another.
unfoldable pub verify_all : Platform → EnvelopeAuth → List (VerifyInput × ℕ) → EnvelopeAuth
verify_all p a [] = a
verify_all p a ((input, now) ∷ rest) = verify_all p (verify_request p a input now).1 rest

get-filter :
    (f : String × ℕ → Bool) (m : Dict ℕ) (k : String) (v : ℕ)
    → get m k ≡ some v
    → f (k, v) ≡ true
    → get (filter f m) k ≡ some v
unfolding get
get-filter f [] k v e t = cc
get-filter f ((j, w) ∷ m) k v e t = ground (arith, str_eq_iff j k, get-filter f m k v)

-- The nonce was seen at `since` or later, and the settings are those given.
abbrev Remembers : EnvelopeAuth → (key : String) → (since ttl skew : ℕ) → Type 0
Remembers a key since ttl skew =
    (s : ℕ) × (get a.nonce_seen_at_ms key ≡ some s)
    × (since ≤ s)
    × (a.nonce_ttl_ms ≡ ttl)
    × (a.max_clock_skew_ms ≡ skew)

prune-Remembers :
    (a : EnvelopeAuth) (key : String) (since ttl skew now : ℕ)
    → now ≤ since + ttl
    → Remembers a key since ttl skew
    → Remembers (prune_nonces a now) key since ttl skew
unfolding prune_nonces
prune-Remembers a key since ttl skew now h (s, found, late, e, e') =
    (s, get-filter _ a.nonce_seen_at_ms key s found (le→leb _ _ (omega arith)), late, e, e')

register-Remembers :
    (a : EnvelopeAuth) (source nonce key : String) (since ttl skew now : ℕ)
    → now ≤ since + ttl
    → since ≤ now
    → Remembers a key since ttl skew
    → Remembers (register_nonce a source nonce now) key since ttl skew
unfolding register_nonce
register-Remembers a source nonce key since ttl skew now h l r =
    let (s, found, late, e, e') = prune-Remembers a key since ttl skew now h r in
    let other =
      get-set (prune_nonces a now).nonce_seen_at_ms (build_nonce_key source nonce) key now in
    elim (Bool-cases (str_eq (build_nonce_key source nonce) key)) [
      | inl same ↦ (now, rw (other, same) refl, l, e, e')
      | inr apart ↦ (s, rw (other, apart) found, late, e, e')
    ]

verify_signed-Remembers :
    (p : Platform) (a : EnvelopeAuth) (input : VerifyInput) (now : ℕ)
    (source timestamp key : String) (since ttl skew : ℕ)
    → now ≤ since + ttl
    → since ≤ now
    → Remembers a key since ttl skew
    → Remembers (verify_signed p a input now source timestamp).1 key since ttl skew
unfolding verify_signed
verify_signed-Remembers p a input now source timestamp key since ttl skew h l r =
    elim (Option-cases (normalize_header input.headers.nonce)) [
      | inl e ↦ rw (e, verify_signed) r
      | inr (nonce, e) ↦
          let pruned = prune-Remembers a key since ttl skew now h r in
          elim (Bool-cases
            (has (prune_nonces a now).nonce_seen_at_ms (build_nonce_key source nonce))) [
              | inl seen ↦ rw (e, seen, verify_signed) pruned
              | inr new ↦
                  elim (Result-cases
                    (check_signature p input.headers input.body source timestamp nonce)) [
                      | inl (u, good) ↦
                          rw (e, new, good, verify_signed)
                            (register-Remembers (prune_nonces a now) source nonce key since ttl skew
                              now h l pruned)
                      | inr (x, bad) ↦ rw (e, new, bad, verify_signed) pruned
                    ]
            ]
    ]

verify_request-Remembers :
    (p : Platform) (a : EnvelopeAuth) (input : VerifyInput) (now : ℕ) (key : String)
    (since ttl skew : ℕ)
    → now ≤ since + ttl
    → since ≤ now
    → Remembers a key since ttl skew
    → Remembers (verify_request p a input now).1 key since ttl skew
unfolding verify_request
verify_request-Remembers p a input now key since ttl skew h l r =
    elim (Result-cases (read_source a input.headers)) [
      | inr (x, e) ↦ rw (e, verify_request) r
      | inl (source, e) ↦ elim (Result-cases (read_timestamp p a input.headers now)) [
        | inr (x, e') ↦ rw (e, e', verify_request) r
        | inl (timestamp, e') ↦ elim (Bool-cases (is_trusted_lan input.security_mode)) [
          | inl lan ↦ rw (e, e', lan, verify_request) r
          | inr strict ↦
              rw (e, e', strict, verify_request)
                (verify_signed-Remembers p a input now source timestamp key since ttl skew h l r)
        ]
      ]
    ]

verify_all-Remembers :
    (p : Platform) (a : EnvelopeAuth) (requests : List (VerifyInput × ℕ)) (key : String)
    (since ttl skew : ℕ)
    → All (λ r. (since ≤ r.1) × (r.1 ≤ since + ttl)) requests
    → Remembers a key since ttl skew
    → Remembers (verify_all p a requests) key since ttl skew
unfolding verify_all
verify_all-Remembers p a [] key since ttl skew h r = r
verify_all-Remembers p a ((input, now) ∷ rest) key since ttl skew h r =
    verify_all-Remembers p (verify_request p a input now).1 rest key since ttl skew h.1
      (verify_request-Remembers p a input now key since ttl skew h.0.1 h.0.0 r)

accepted-Remembers :
    (p : Platform) (a : EnvelopeAuth) (input : VerifyInput) (now : ℕ) (source timestamp : String)
    (s : IsSigned p a input now source timestamp)
    → input.security_mode ≡ strict_signed
    → IsTimely p a input.headers now source timestamp
    → Remembers
        (verify_request p a input now).1
        (build_nonce_key source s.nonce)
        now
        a.nonce_ttl_ms
        a.max_clock_skew_ms
unfolding register_nonce prune_nonces get verify_signed
accepted-Remembers p a input now source timestamp s strict timely =
    rw
      (
        IsTimely-verify p a input now source timestamp timely,
        strict,
        IsSigned-accepted p a input now source timestamp s,
      )
      (now, get-set_self _ _ now, omega arith, refl, refl)

verify_request-skew :
    (p : Platform) (a : EnvelopeAuth) (input : VerifyInput) (now : ℕ)
    → (verify_request p a input now).1.max_clock_skew_ms ≡ a.max_clock_skew_ms
unfolding verify_request verify_signed register_nonce prune_nonces
verify_request-skew p a input now = ground arith

verify_all-skew :
    (p : Platform) (a : EnvelopeAuth) (requests : List (VerifyInput × ℕ))
    → (verify_all p a requests).max_clock_skew_ms ≡ a.max_clock_skew_ms
unfolding verify_all
verify_all-skew p a [] = refl
verify_all-skew p a ((input, now) ∷ rest) =
    verify_all-skew p (verify_request p a input now).1 rest ∙ verify_request-skew p a input now

distance-near :
    (now later skew : ℕ) (t : ℤ)
    → distance now t ≤ skew
    → distance later t ≤ skew
    → later ≤ now + skew * 2
distance-near now later skew (pos t) h k = ground arith
distance-near now later skew (negsuc t) h k = ground arith

same-some : {A : Type 0} (v w : A) → some v ≡ some w → v ≡ w
same-some v w e = cc

-- A request accepted in strict mode is refused when its node, nonce and time stamp come again in
-- strict mode, whatever requests come between.
pub verify_request-replay :
    (p : Platform) (a : EnvelopeAuth) (input again : VerifyInput) (now later : ℕ)
    (source x : String) (between : List (VerifyInput × ℕ))
    → a.max_clock_skew_ms * 2 ≤ a.nonce_ttl_ms
    → All (λ r. (now ≤ r.1) × (r.1 ≤ later)) between
    → now ≤ later
    → input.security_mode ≡ strict_signed
    → again.security_mode ≡ strict_signed
    → again.headers.node_id ≡ input.headers.node_id
    → again.headers.nonce ≡ input.headers.nonce
    → again.headers.ts ≡ input.headers.ts
    → (verify_request p a input now).0 ≡ ok source
    → (verify_request p (verify_all p (verify_request p a input now).1 between) again later).0
      ≢ ok x
unfolding prune_nonces
verify_request-replay p a input again now later source x between ttl order le strict strict'
      same_node same_nonce same_ts accepted accepted_again =
    let b = verify_all p (verify_request p a input now).1 between in
    let (timestamp, timely, signed) = strict-IsSigned p a input now source strict accepted in
    let (timestamp', timely', signed') = strict-IsSigned p b again later x strict' accepted_again in
    let (t, number, near) = timely.in_range in
    let (t', number', near') = timely'.in_range in
    let skew : b.max_clock_skew_ms ≡ a.max_clock_skew_ms =
      verify_all-skew p _ between ∙ verify_request-skew p a input now in
    let same_time : t ≡ t' = same-some _ _ (
      sym number
      ∙ ap p.number (
          same-some _ _ (
            sym timely.timestamp_given
            ∙ ap normalize_header (sym same_ts)
            ∙ timely'.timestamp_given))
      ∙ number') in
    let same_source : source ≡ x =
      same-some _ _
        (sym timely.source_given ∙ ap normalize_header (sym same_node) ∙ timely'.source_given) in
    let same_nonce' : signed.nonce ≡ signed'.nonce =
      same-some _ _
        (sym signed.nonce_given ∙ ap normalize_header (sym same_nonce) ∙ signed'.nonce_given) in
    let same_key : build_nonce_key source signed.nonce ≡ build_nonce_key x signed'.nonce =
      ap (λ y. build_nonce_key y signed.nonce) same_source ∙ ap (build_nonce_key x) same_nonce' in
    let in_time : later ≤ now + a.nonce_ttl_ms = omega (
      arith,
      distance-near now later a.max_clock_skew_ms t near
          (omega (arith, ap (distance later) same_time, skew, near')),
    ) in
    let (at, found, _, _, _) =
      prune-Remembers b (build_nonce_key source signed.nonce) now a.nonce_ttl_ms a.max_clock_skew_ms
        later in_time
        (verify_all-Remembers p _ between _ now _ _
          (All-map _ _ (λ r (l, m). (l, omega arith)) between order)
          (accepted-Remembers p a input now source timestamp signed strict timely)) in
    cc (
      ap is_some found,
      ap (λ k. has (prune_nonces b later).nonce_seen_at_ms k) same_key,
      signed'.nonce_new,
    )

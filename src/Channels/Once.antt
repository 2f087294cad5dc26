-- ===== src/Channels/Once.antt =====
-- A message of an external channel that comes in again is not dispatched again.
use autobyteus_server_ts.Channels.{
  receipt_of, ChannelBindingLookup, lookup_of, normalize_dispatch_target, continue, Action,
  duplicate_result, false, Bool-cases, reads, normalize-IsNormal, sym, ChannelError,
  handle_decision, create_idempotency_key, handle_inbound_message, IdempotencyDecision, subst,
  Result, normalize, route_resolved, route_message, IngressReceipt, ChannelBinding, first_some,
  MessageEnvelope, IngressPorts,
}
use autobyteus_server_ts.Channels.Idempotency.{
  decision_of, compute_expiry, has_expired, unique_constraint, reserve_key, KeyRow, KeyTable,
}
use autobyteus_server_ts.Channels.Idempotency.{ensure_first_seen}
use autobyteus_server_ts.Common.{
  refl, ◌<◌, Option-cases, ok, err, ℕ, ◌+◌, ◌*◌, ◌≤◌, String, ◌≡◌, ap, ◌∙◌, inl, inr, true, Option,
  none, some, arith,
}
use autobyteus_server_ts.Common.Text.{IsNormal}

-- What is documented of a table with a unique key: a row is created where there is none, a key that
-- is there is refused and nothing changes, and an update without an expiry keeps the one there is.
pub record IsKeyTable {S : Type 0} (table : KeyTable S) (row : S → String → Option KeyRow)
    : Type 0 where
  pub create_absent :
      (k : String) (e : Option ℕ) (s : S)
      → row s k ≡ none
      → (r : KeyRow) × (s' : S) × (table.create k e s ≡ (ok r, s'))
        × (row s' k ≡ some r)
        × (r.expires_at ≡ e)
  pub create_present :
      (k : String) (e : Option ℕ) (r : KeyRow) (s : S)
      → row s k ≡ some r
      → table.create k e s ≡ (err unique_constraint, s)
  pub find_unique : (k : String) (s : S) → table.find_unique k s ≡ (ok (row s k), s)
  pub update_present :
      (k : String) (now : ℕ) (e : Option ℕ) (r : KeyRow) (s : S)
      → row s k ≡ some r
      → (r' : KeyRow) × (s' : S) × (table.update k now e s ≡ (ok r', s'))
        × (row s' k ≡ some r')
        × (r'.expires_at ≡ first_some e r.expires_at)

-- The services behind the ingress do not write the table of keys.
pub record LeavesKeys {S : Type 0} (ports : IngressPorts S) (row : S → String → Option KeyRow)
    : Type 0 where
  pub resolve_binding :
      (e : ChannelBindingLookup) (s : S) (k : String)
      → row (ports.resolve_binding e s).1 k ≡ row s k
  pub with_thread_lock :
      (b : ChannelBinding) (e : MessageEnvelope) (s : S) (k : String)
      → row (ports.with_thread_lock e.routing_key (ports.dispatch_to_binding b e) s).1 k ≡ row s k
  pub record_ingress_receipt :
      (r : IngressReceipt) (s : S) (k : String)
      → row (ports.record_ingress_receipt r s).1 k ≡ row s k

-- The key is not in the table, or has expired.
abbrev pub IsFree : Option KeyRow → ℕ → Type 0
IsFree none now = Unit {0}
IsFree (some r) now = has_expired r.expires_at now ≡ true

-- The key is in the table with an expiry that is still to come.
record IsHeld (r : Option KeyRow) (expiry : ℕ) : Type 0 where
  held : KeyRow
  found : r ≡ some held
  expires : held.expires_at ≡ some expiry

module _ {S : Type 0} (table : KeyTable S) (ports : IngressPorts S)
    (row : S → String → Option KeyRow) (laws : IsKeyTable table row)
    (leaves : LeavesKeys ports row) where
  reserve_key-IsHeld :
      (key : String) (ttl now : ℕ) (s : S)
      → IsNormal key
      → 1 ≤ ttl
      → IsFree (row s key) now
      → IsHeld (row (reserve_key table key ttl now s).1 key) (now + ttl * 1000)
  unfolding reserve_key
  reserve_key-IsHeld key ttl now s normal pos free =
      let expiry : compute_expiry now ttl ≡ some (now + ttl * 1000) = ground arith in
      elim (Option-cases (row s key)) [
        | inl n ↦
            let (r, s', made, found, e) = laws.create_absent key (compute_expiry now ttl) s n in
            rw (normal, made, reserve_key)
              (record { held = r; found = found; expires = e ∙ expiry })
        | inr (old, n) ↦
            let over : has_expired old.expires_at now ≡ true = rw n at free in
            let refused = laws.create_present key (compute_expiry now ttl) old s n in
            let (r, s', written, found, e) =
              laws.update_present key now (compute_expiry now ttl) old s n in
            let kept : r.expires_at ≡ some (now + ttl * 1000) =
              e ∙ ap (λ x. first_some x old.expires_at) expiry in
            rw (normal, refused, laws.find_unique key s, n, over, written, reserve_key)
              (record { held = r; found = found; expires = kept })
      ]

  -- What holds of a row behind a call, and behind all that may follow it.
  continue-row {ℓ κ} :
      {B : Type ℓ} {C : Type κ} (k : String) (P : Option KeyRow → Type 0)
      (x : Result ChannelError B × S) (f : B → Action S ChannelError C)
      → P (row x.1 k)
      → ((b : B) (t : S) → P (row t k) → P (row (f b t).1 k))
      → P (row (continue x f).1 k)
  continue-row k P (ok b, t) f h g = g b t h
  continue-row k P (err e, t) f h g = h

  ensure_first_seen-IsHeld :
      (text key : String) (ttl now : ℕ) (s : S)
      → normalize text ≡ some key
      → 1 ≤ ttl
      → IsFree (row s key) now
      → IsHeld (row (ensure_first_seen table (some ttl) text now s).1 key) (now + ttl * 1000)
  unfolding ensure_first_seen
  ensure_first_seen-IsHeld text key ttl now s named pos free =
      rw (named, ensure_first_seen)
        (continue-row key (λ r. IsHeld r (now + ttl * 1000)) (reserve_key table key ttl now s) _
          (reserve_key-IsHeld key ttl now s (normalize-IsNormal text key named) pos free)
          (λ r t h. h))

  -- A key that is held is seen again, and nothing is written.
  ensure_first_seen-again :
      (text key : String) (ttl later expiry : ℕ) (t : S)
      → normalize text ≡ some key
      → later < expiry
      → IsHeld (row t key) expiry
      → (d : IdempotencyDecision) × (ensure_first_seen table (some ttl) text later t ≡ (ok d, t))
        × (d.duplicate ≡ true)
  unfolding ensure_first_seen reserve_key
  ensure_first_seen-again text key ttl later expiry t named soon h =
      let normal = normalize-IsNormal text key named in
      let refused = laws.create_present key (compute_expiry later ttl) h.held t h.found in
      let live : has_expired h.held.expires_at later ≡ false = rw h.expires (ground arith) in
      (
        decision_of table key (record { first_seen = false; row = some h.held }),
        rw
            (
              named,
              normal,
              refused,
              laws.find_unique key t,
              h.found,
              live,
              reserve_key,
              ensure_first_seen,
            )
            refl,
        refl,
      )

  route_message-row :
      (e : MessageEnvelope) (now : ℕ) (b : ChannelBinding) (s : S) (k : String)
      (P : Option KeyRow → Type 0)
      → P (row s k)
      → P (row (route_message table ports e now b s).1 k)
  unfolding route_message
  route_message-row e now b s k P h =
      continue-row k P (ports.with_thread_lock e.routing_key (ports.dispatch_to_binding b e) s) _
        (subst P (sym (leaves.with_thread_lock b e s k)) h)
        (λ d t held.
          continue-row k P (reads (λ s. normalize_dispatch_target d b now) t) _ held
            (λ target u held'.
              continue-row k P (ports.record_ingress_receipt (receipt_of e target) u) _
                (subst P (sym (leaves.record_ingress_receipt _ u k)) held') (λ v w last. last)))

  route_resolved-row :
      (e : MessageEnvelope) (now : ℕ) (b : Option ChannelBinding) (s : S) (k : String)
      (P : Option KeyRow → Type 0)
      → P (row s k)
      → P (row (route_resolved table ports e now b s).1 k)
  route_resolved-row e now none s k P h = h
  route_resolved-row e now (some b) s k P h = route_message-row e now b s k P h

  handle_decision-row :
      (e : MessageEnvelope) (now : ℕ) (d : IdempotencyDecision) (s : S) (k : String)
      (P : Option KeyRow → Type 0)
      → P (row s k)
      → P (row (handle_decision table ports e now d s).1 k)
  handle_decision-row e now d s k P h = elim (Bool-cases d.duplicate) [
    | inl b ↦ rw b h
    | inr b ↦ rw b (
        continue-row k P (ports.resolve_binding (lookup_of e) s) _
          (subst P (sym (leaves.resolve_binding (lookup_of e) s k)) h)
          (λ binding t held. route_resolved-row e now binding t k P held))
  ]

  -- A message whose key was free when it came is a duplicate when it comes again before the time to
  -- live is over, whatever became of it the first time and of anything else since: it is not
  -- dispatched, and nothing changes. A call that failed behind the key is not tried again either.
  pub handle_inbound_message-once :
      (ttl : ℕ) (e : MessageEnvelope) (key : String) (now later : ℕ) (s t : S)
      → normalize (create_idempotency_key e) ≡ some key
      → 1 ≤ ttl
      → IsFree (row s key) now
      → row t key ≡ row (handle_inbound_message table ports (some ttl) e now s).1 key
      → later < now + ttl * 1000
      → handle_inbound_message table ports (some ttl) e later t
        ≡ (ok (duplicate_result (create_idempotency_key e)), t)
  unfolding handle_inbound_message
  handle_inbound_message-once ttl e key now later s t named pos free kept soon =
      let held : IsHeld (row (handle_inbound_message table ports (some ttl) e now s).1 key)
          (now + ttl * 1000) =
        continue-row key (λ r. IsHeld r (now + ttl * 1000))
          (ensure_first_seen table (some ttl) (create_idempotency_key e) now s) _
          (ensure_first_seen-IsHeld (create_idempotency_key e) key ttl now s named pos free)
          (λ d u h. handle_decision-row e now d u key (λ r. IsHeld r (now + ttl * 1000)) h) in
      let (d, seen, again) =
        ensure_first_seen-again (create_idempotency_key e) key ttl later (now + ttl * 1000) t named
          soon (subst (λ r. IsHeld r (now + ttl * 1000)) (sym kept) held) in
      rw (seen, again, handle_inbound_message) refl

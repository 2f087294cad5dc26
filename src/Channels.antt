-- ===== src/Channels.antt =====
-- src/external-channel/services/channel-ingress-service.ts: what becomes of a message that comes in
-- from an external channel. The services it calls are calls on a store of any kind, which may throw.
pub mod Idempotency
pub mod Once
pub mod ThreadLock
mod Tests
use autobyteus_server_ts.Runs.Orchestrator.{truthy}
use autobyteus_server_ts.Channels.Idempotency.{
  no_dispatch_target, IdempotencyDecision, ensure_first_seen, ChannelError, KeyTable,
}
use autobyteus_server_ts.Common.{
  ltb, leb, ◌==◌, if◌then◌else◌, ltb→lt, lt→ltb, leb→le, le→leb, ==_iff, Bool-cases, Option-cases,
  get_or, is_some, Result, ok, err, or_throw, Result-cases, >>=-eq-ok, or_throw-eq-ok, length,
  get_elem?, filter, find, All, length-append, length-filter-le, All-append, All-map, filter-All,
  get_elem?_total, get_elem?-All, find-All, ℕ, zero, suc, ◌+◌, ◌-◌, ◌*◌, ◌/◌, ◌%◌, ◌^◌, ◌≤◌, ◌<◌,
  min, max, String, ◌≡◌, refl, sym, ap, ◌∙◌, subst, ◌≢◌, ◌↔◌, ◌⊎◌, inl, inr, Bool, true, false, not,
  ◌&&◌, ◌||◌, Option, none, some, List, [], ◌∷◌, ◌++◌, map, arith, str_eq, str_eq_iff, str_eq_refl,
}
use autobyteus_server_ts.Common.Actions.{Action, ◌>>=◌, reads, continue}
use autobyteus_server_ts.Common.Text.{
  normalize, normalize_optional, IsNormal, normalize-IsNormal, IsNormal-ne-nil, join, trim,
}
use autobyteus_server_ts.Common.Dict.{
  Dict, get, has, set, delete, keys, values, get-set, get-set_self, get-set_ne, get-delete,
  get-delete_self, get-delete_ne, IsDistinct, set-IsDistinct, delete-IsDistinct, delete-absent,
  delete-set_self, length-set, length-delete-le, get-All, set-All, delete-All, contains, dict_laws,
}

pub record MessageEnvelope : Type 0 where
  pub provider : String
  pub transport : String
  pub account_id : String
  pub peer_id : String
  pub thread_id : Option String
  pub external_message_id : String
  pub routing_key : String
  pub received_at : ℕ

pub data BindingTargetType : Type 0 where
  agent_target team_target : BindingTargetType

pub record ChannelBinding : Type 0 where
  pub id : String
  pub provider : String
  pub transport : String
  pub account_id : String
  pub peer_id : String
  pub thread_id : Option String
  pub target_type : BindingTargetType
  pub agent_id : Option String
  pub team_id : Option String
  pub target_member_name : Option String
  pub created_at : ℕ
  pub updated_at : ℕ

pub record ChannelBindingLookup : Type 0 where
  pub provider : String
  pub transport : String
  pub account_id : String
  pub peer_id : String
  pub thread_id : Option String

-- `dispatched_at` is none for a date that is none.
pub record RuntimeDispatchResult : Type 0 where
  pub agent_id : Option String
  pub team_id : Option String
  pub dispatched_at : Option ℕ

pub record IngressReceipt : Type 0 where
  pub provider : String
  pub transport : String
  pub account_id : String
  pub peer_id : String
  pub thread_id : Option String
  pub external_message_id : String
  pub received_at : ℕ
  pub agent_id : Option String
  pub team_id : Option String

pub data IngressDisposition : Type 0 where
  routed unbound duplicated : IngressDisposition

pub record IngressResult : Type 0 where
  pub duplicate : Bool
  pub idempotency_key : String
  pub disposition : IngressDisposition
  pub binding_resolved : Bool
  pub binding : Option ChannelBinding
  pub dispatch : Option RuntimeDispatchResult

-- The services behind the ingress, but for that of the idempotency keys. `with_thread_lock` runs its
-- work under the lock of a thread.
pub record IngressPorts (S : Type 0) : Type 0 where
  pub resolve_binding : ChannelBindingLookup → Action S ChannelError (Option ChannelBinding)
  pub with_thread_lock :
      String
      → Action S ChannelError RuntimeDispatchResult
      → Action S ChannelError RuntimeDispatchResult
  pub dispatch_to_binding :
      ChannelBinding → MessageEnvelope → Action S ChannelError RuntimeDispatchResult
  pub record_ingress_receipt : IngressReceipt → Action S ChannelError (Unit {0})

abbrev pub create_idempotency_key : MessageEnvelope → String
create_idempotency_key e = join "::" (e.routing_key ∷ e.external_message_id ∷ [])

abbrev pub lookup_of : MessageEnvelope → ChannelBindingLookup
lookup_of e = record {
  provider = e.provider;
  transport = e.transport;
  account_id = e.account_id;
  peer_id = e.peer_id;
  thread_id = e.thread_id;
}

abbrev pub receipt_of : MessageEnvelope → RuntimeDispatchResult → IngressReceipt
receipt_of e target = record {
  provider = e.provider;
  transport = e.transport;
  account_id = e.account_id;
  peer_id = e.peer_id;
  thread_id = e.thread_id;
  external_message_id = e.external_message_id;
  received_at = e.received_at;
  agent_id = target.agent_id;
  team_id = target.team_id;
}

abbrev pub first_some {ℓ} : {A : Type ℓ} → Option A → Option A → Option A
first_some none b = b
first_some (some a) b = some a

-- An id that is an empty text counts as none in the guard.
unfoldable pub normalize_dispatch_target :
    RuntimeDispatchResult → ChannelBinding → (now : ℕ) → Result ChannelError RuntimeDispatchResult
normalize_dispatch_target d binding now =
    let agent = first_some (normalize_optional d.agent_id) binding.agent_id in
    let team = first_some (normalize_optional d.team_id) binding.team_id in
    let target : RuntimeDispatchResult = record {
      agent_id = agent;
      team_id = team;
      dispatched_at = some (get_or d.dispatched_at now);
    } in
    elim (first_some (truthy agent) (truthy team)) [
      | none ↦ err no_dispatch_target
      | some id ↦ ok target
    ]

abbrev pub duplicate_result : String → IngressResult
duplicate_result key = record {
  duplicate = true;
  idempotency_key = key;
  disposition = duplicated;
  binding_resolved = false;
  binding = none;
  dispatch = none;
}

abbrev pub unbound_result : String → IngressResult
unbound_result key = record {
  duplicate = false;
  idempotency_key = key;
  disposition = unbound;
  binding_resolved = false;
  binding = none;
  dispatch = none;
}

module _ {S : Type 0} (table : KeyTable S) (ports : IngressPorts S) where
  unfoldable pub route_message :
      MessageEnvelope → (now : ℕ) → ChannelBinding → Action S ChannelError IngressResult
  route_message e now binding = do
    dispatch ← ports.with_thread_lock e.routing_key (ports.dispatch_to_binding binding e)
    target ← reads (λ s. normalize_dispatch_target dispatch binding now)
    u ← ports.record_ingress_receipt (receipt_of e target)
    reads (λ s. ok (record {
      duplicate = false;
      idempotency_key = create_idempotency_key e;
      disposition = routed;
      binding_resolved = true;
      binding = some binding;
      dispatch = some target;
    }))

  abbrev pub route_resolved :
      MessageEnvelope → (now : ℕ) → Option ChannelBinding → Action S ChannelError IngressResult
  route_resolved e now none = reads (λ s. ok (unbound_result (create_idempotency_key e)))
  route_resolved e now (some binding) = route_message e now binding

  -- What follows the decision on the key.
  abbrev pub handle_decision :
      MessageEnvelope → (now : ℕ) → IdempotencyDecision → Action S ChannelError IngressResult
  handle_decision e now d =
      if d.duplicate
      then reads (λ s. ok (duplicate_result (create_idempotency_key e)))
      else (ports.resolve_binding (lookup_of e) >>= route_resolved e now)

  unfoldable pub handle_inbound_message :
      (ttl : Option ℕ) → MessageEnvelope → (now : ℕ) → Action S ChannelError IngressResult
  handle_inbound_message ttl e now = do
    decision ← ensure_first_seen table ttl (create_idempotency_key e) now
    handle_decision e now decision

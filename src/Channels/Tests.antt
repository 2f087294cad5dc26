-- ===== src/Channels/Tests.antt =====
-- A message that comes in twice, with a table of keys in memory.
use autobyteus_server_ts.Channels.ThreadLock.Exclusion.{
  LockReach-exclusive, start, after, LockReach,
}
use autobyteus_server_ts.Channels.ThreadLock.{
  acquired, is_settled, entered, waiting, done, running, no_calls, finish, acquire, time_out,
  ThreadLock, enter,
}
use autobyteus_server_ts.Channels.Once.{handle_inbound_message-once, LeavesKeys, IsKeyTable}
use autobyteus_server_ts.Channels.Idempotency.{
  unique_constraint, service_failed, reserve_key, KeyRow, KeyTable,
}
use autobyteus_server_ts.Channels.{
  agent_target, normalize_dispatch_target, route_message, ChannelError, routed, Result,
  duplicate_result, first_some, MessageEnvelope, handle_inbound_message, IngressResult,
  IngressPorts, ChannelBinding, create_idempotency_key,
}
use autobyteus_server_ts.Channels.Idempotency.{ensure_first_seen}
use autobyteus_server_ts.Common.{
  ok, err, ℕ, String, ◌≡◌, refl, ap, true, false, Option, none, some, [], arith,
}
use autobyteus_server_ts.Common.Text.{normalize, trim, join, normalize_optional}
use autobyteus_server_ts.Common.Dict.{Dict, get, set, get-set_self}

abbrev row_of : String → ℕ → Option ℕ → KeyRow
row_of k now e = record { key = k; first_seen_at = now; expires_at = e }

abbrev created_row :
    String → Option ℕ → Dict KeyRow → Option KeyRow → Result ChannelError KeyRow × Dict KeyRow
created_row k e s none = (ok (row_of k 0 e), set s k (row_of k 0 e))
created_row k e s (some r) = (err unique_constraint, s)

abbrev updated_row :
    String → ℕ → Option ℕ → Dict KeyRow → Option KeyRow → Result ChannelError KeyRow × Dict KeyRow
updated_row k now e s none = (err (service_failed "no row"), s)
updated_row k now e s (some r) = (
  ok (row_of k now (first_some e r.expires_at)),
  set s k (row_of k now (first_some e r.expires_at)),
)

abbrev memory : KeyTable (Dict KeyRow)
memory = record {
  create = λ k e s. created_row k e s (get s k);
  find_unique = λ k s. (ok (get s k), s);
  update = λ k now e s. updated_row k now e s (get s k);
}

memory-IsKeyTable : IsKeyTable memory (λ s k. get s k)
memory-IsKeyTable = record {
  create_absent = λ k e s h. (
    row_of k 0 e,
    set s k (row_of k 0 e),
    ap (created_row k e s) h,
    get-set_self s k (row_of k 0 e),
    refl,
  );
  create_present = λ k e r s h. ap (created_row k e s) h;
  find_unique = λ k s. refl;
  update_present = λ k now e r s h.
      let new = row_of k now (first_some e r.expires_at) in
      (new, set s k new, ap (updated_row k now e s) h, get-set_self s k new, refl);
}

abbrev binding : ChannelBinding
binding = record {
  id = "b";
  provider = "p";
  transport = "t";
  account_id = "a";
  peer_id = "x";
  thread_id = none;
  target_type = agent_target;
  agent_id = some "agent";
  team_id = none;
  target_member_name = none;
  created_at = 0;
  updated_at = 0;
}

abbrev ports : IngressPorts (Dict KeyRow)
ports = record {
  resolve_binding = λ e s. (ok (some binding), s);
  with_thread_lock = λ key work s. work s;
  dispatch_to_binding =
      λ b e s. (ok (record { agent_id = b.agent_id; team_id = none; dispatched_at = none }), s);
  record_ingress_receipt = λ r s. (ok tt, s);
}

ports-LeavesKeys : LeavesKeys ports (λ s k. get s k)
ports-LeavesKeys = record {
  resolve_binding = λ e s k. refl;
  with_thread_lock = λ b e s k. refl;
  record_ingress_receipt = λ r s k. refl;
}

abbrev message : MessageEnvelope
message = record {
  provider = "p";
  transport = "t";
  account_id = "a";
  peer_id = "x";
  thread_id = none;
  external_message_id = "m";
  routing_key = "r";
  received_at = 0;
}

abbrev after_first : Dict KeyRow
after_first = (handle_inbound_message memory ports (some 60) message 1000 []).1

abbrev routed_result : IngressResult
routed_result = record {
  duplicate = false;
  idempotency_key = "r::m";
  disposition = routed;
  binding_resolved = true;
  binding = some binding;
  dispatch = some (record { agent_id = some "agent"; team_id = none; dispatched_at = some 1000 });
}

routed_test :
    handle_inbound_message memory ports (some 60) message 1000 [] ≡ (ok routed_result, after_first)
unfolding handle_inbound_message ensure_first_seen normalize trim reserve_key get join route_message
    normalize_dispatch_target normalize_optional set
routed_test = refl

key_named : normalize (create_idempotency_key message) ≡ some "r::m"
unfolding normalize trim join
key_named = refl

handle_inbound_message-once_example :
    handle_inbound_message memory ports (some 60) message 60999 after_first
    ≡ (ok (duplicate_result (create_idempotency_key message)), after_first)
unfolding get
handle_inbound_message-once_example =
    handle_inbound_message-once memory ports (λ s k. get s k) memory-IsKeyTable ports-LeavesKeys 60
      message "r::m" 1000 60999 [] after_first key_named (omega arith) tt refl (omega arith)

-- Two calls, of which the first works and the second has its turn after it.
abbrev one_works : ThreadLock
one_works = acquire (enter (enter no_calls)) 0

abbrev two_works : ThreadLock
two_works = acquire (finish one_works 0) 1

one_works-LockReach : LockReach one_works
unfolding enter
one_works-LockReach =
    after (enter (enter no_calls)) one_works
      (after (enter no_calls) (enter (enter no_calls))
        (after no_calls (enter no_calls) start (entered no_calls)) (entered (enter no_calls)))
      (acquired (enter (enter no_calls)) 0 refl refl)

two_works-LockReach : LockReach two_works
unfolding enter acquire finish
two_works-LockReach =
    after (finish one_works 0) two_works
      (after one_works (finish one_works 0) one_works-LockReach (done one_works 0 refl))
      (acquired (finish one_works 0) 1 refl refl)

LockReach-exclusive_example : ◌≡◌ {A = ℕ} 1 1
unfolding enter acquire finish
LockReach-exclusive_example = LockReach-exclusive two_works 1 1 two_works-LockReach refl refl

-- When the second call times out while the first works, a third finds no tail and works beside it.
abbrev after_time_out : ThreadLock
after_time_out = enter (time_out one_works 1)

overlap_test :
    (after_time_out.phase 0 ≡ running)
    × (after_time_out.phase 2 ≡ waiting)
    × (is_settled after_time_out (after_time_out.previous 2) ≡ true)
unfolding enter acquire time_out
overlap_test = (refl, refl, refl)

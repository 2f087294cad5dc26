-- ===== src/Replies/Tests.antt =====
-- A channel with one source, and a publisher that works or does not.
use autobyteus_server_ts.Common.{
  if◌then◌else◌, Result, ok, err, ℕ, String, ◌≡◌, refl, Bool, Option, none, some, [], ◌∷◌, str_eq,
}
use autobyteus_server_ts.Common.Text.{normalize, normalize_optional, trim}
use autobyteus_server_ts.Replies.{
  record_failure, delivery_event, record_with_status, deliver, publish_configured, publish_ids,
  publish_text, Error, thrown, ReplyInput, Envelope, Source, pending, failed, ReplyCallback,
  build_envelope, publish_assistant_reply_by_turn,
}
use autobyteus_server_ts.Replies.Laws.{statuses}

abbrev source : Source
source = record {
  provider = "whatsapp";
  transport = "direct";
  account_id = "acc";
  peer_id = "peer";
  thread_id = none;
  external_message_id = "m1";
}

abbrev reserve : String → ℕ → Result Error Bool
reserve key ttl = ok (str_eq key "used")

abbrev callback : (Envelope String String → Option Error) → ReplyCallback String String
callback publish = record {
  source_by_agent_turn = λ agent turn. ok (if str_eq turn "t1" then some source else none);
  reserve = some reserve;
  upsert_by_callback_key = some (λ d. none);
  is_route_bound = none;
  publish = some publish;
  ttl_seconds = 3600;
  text_value = λ s. s;
}

abbrev works : Envelope String String → Option Error
works e = none

abbrev breaks : Envelope String String → Option Error
breaks e = some (thrown "gateway down")

abbrev reply : ReplyInput String String
reply = record {
  agent_id = "a1";
  turn_id = some " t1";
  reply_text = some "hello";
  callback_idempotency_key = "k1";
  team_id = none;
  correlation_message_id = none;
  attachments = none;
  metadata = none;
}

breaks_test :
    ((publish_assistant_reply_by_turn (callback breaks) reply).0 ≡ err (thrown "gateway down"))
    × (statuses (publish_assistant_reply_by_turn (callback breaks) reply).1.recorded
        ≡ pending ∷ failed ∷ [])
unfolding publish_assistant_reply_by_turn normalize_optional normalize trim publish_text publish_ids
    publish_configured deliver record_with_status delivery_event build_envelope record_failure
breaks_test = (refl, refl)

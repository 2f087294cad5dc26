-- ===== src/Replies.antt =====
-- src/external-channel/services/reply-callback-service.ts with delivery-event-service.ts: an
-- agent's reply goes back to the external channel that its message came from. The services and the
-- publisher it is given are functions, which answer or throw; what was asked of them is returned.
-- Attachments and metadata values are types of their own.
pub mod Answers
pub mod Laws
pub mod Publishing
mod Tests
use autobyteus_server_ts.Common.{
  if◌then◌else◌, get_or, Result, ok, err, ◌>>=◌, or_throw, ℕ, String, Bool, true, false, not,
  Option, none, some, List, [], ◌∷◌, ◌++◌,
}
use autobyteus_server_ts.Common.Text.{normalize, normalize_optional, join}
use autobyteus_server_ts.Common.Dict.{Dict, set}

pub data Error : Type 0 where
  empty_field : String → Error
  thrown : String → Error
  thrown_value : Error

pub data Reason : Type 0 where
  turn_id_missing source_not_found binding_not_found team_target_not_supported : Reason
  empty_reply callback_not_configured : Reason

pub data DeliveryStatus : Type 0 where
  pending sent delivered failed : DeliveryStatus

pub record Source : Type 0 where
  pub provider : String
  pub transport : String
  pub account_id : String
  pub peer_id : String
  pub thread_id : Option String
  pub external_message_id : String

pub record ReplyInput (A V : Type 0) : Type 0 where
  pub agent_id : String
  pub turn_id : Option String
  pub reply_text : Option String
  pub callback_idempotency_key : String
  pub team_id : Option String
  pub correlation_message_id : Option String
  pub attachments : Option (List A)
  pub metadata : Option (Dict V)

-- `chunks` is always empty here.
pub record Envelope (A V : Type 0) : Type 0 where
  pub provider : String
  pub transport : String
  pub account_id : String
  pub peer_id : String
  pub thread_id : Option String
  pub correlation_message_id : String
  pub callback_idempotency_key : String
  pub reply_text : String
  pub attachments : List A
  pub metadata : Dict V

pub record DeliveryEvent (V : Type 0) : Type 0 where
  pub provider : String
  pub transport : String
  pub account_id : String
  pub peer_id : String
  pub thread_id : Option String
  pub correlation_message_id : Option String
  pub callback_idempotency_key : String
  pub metadata : Dict V
  pub status : DeliveryStatus
  pub error_message : Option String

pub data Outcome (A V : Type 0) : Type 0 where
  published : Envelope A V → Outcome A V
  duplicate : Outcome A V
  skipped : Reason → Outcome A V

-- What was asked of the services, in the order of the calls to each.
pub record Effects (A V : Type 0) : Type 0 where
  pub reserved : List String
  pub recorded : List (DeliveryEvent V)
  pub sent_out : List (Envelope A V)

-- A reply of `some e` is the error thrown. `reserve` answers whether the key is a duplicate.
pub record ReplyCallback (A V : Type 0) : Type 0 where
  pub source_by_agent_turn : String → String → Result Error (Option Source)
  pub reserve : Option (String → ℕ → Result Error Bool)
  pub upsert_by_callback_key : Option (DeliveryEvent V → Option Error)
  pub is_route_bound : Option (Source → String → Result Error Bool)
  pub publish : Option (Envelope A V → Option Error)
  pub ttl_seconds : ℕ
  pub text_value : String → V

unfoldable pub normalize_required : String → String → Result Error String
normalize_required value field = or_throw (normalize value) (empty_field field)

unfoldable pub to_error_message : Error → String
to_error_message (empty_field field) = join "" (field ∷ " must be a non-empty string." ∷ [])
to_error_message (thrown message) = message
to_error_message thrown_value = "Unknown callback publication error."

abbrev pub kept_message : DeliveryStatus → Option String → Option String
kept_message failed message = message
kept_message _ message = none

-- `{ turnId, ...metadata }`: an entry of the metadata with that name wins.
abbrev pub set_all {ℓ} : {V : Type ℓ} → Dict V → Dict V → Dict V
set_all m [] = m
set_all m ((k, v) ∷ entries) = set_all (set m k v) entries

abbrev pub is_bound :
    Option (Source → String → Result Error Bool) → Source → String → Result Error Bool
is_bound none source agent = ok true
is_bound (some bound) source agent = bound source agent

module _ {A V : Type 0} where
  abbrev pub no_effects : Effects A V
  no_effects = record { reserved = []; recorded = []; sent_out = [] }

  unfoldable pub build_envelope :
      ReplyCallback A V → ReplyInput A V → Source → (turn_id reply_text key : String) → Envelope A V
  build_envelope c input source turn_id reply_text key = record {
    provider = source.provider;
    transport = source.transport;
    account_id = source.account_id;
    peer_id = source.peer_id;
    thread_id = source.thread_id;
    correlation_message_id =
        get_or (normalize_optional input.correlation_message_id) source.external_message_id;
    callback_idempotency_key = key;
    reply_text = reply_text;
    attachments = get_or input.attachments [];
    metadata = set_all (("turnId", c.text_value turn_id) ∷ []) (get_or input.metadata []);
  }

  -- The event that `recordWithStatus` hands to the provider.
  unfoldable pub delivery_event :
      Envelope A V → DeliveryStatus → Option String → Result Error (DeliveryEvent V)
  unfolding normalize_required
  delivery_event e status message = do
    account ← normalize_required e.account_id "accountId"
    peer ← normalize_required e.peer_id "peerId"
    key ← normalize_required e.callback_idempotency_key "callbackIdempotencyKey"
    ok (record {
      provider = e.provider;
      transport = e.transport;
      account_id = account;
      peer_id = peer;
      thread_id = normalize_optional e.thread_id;
      correlation_message_id = normalize e.correlation_message_id;
      callback_idempotency_key = key;
      metadata = e.metadata;
      status = status;
      error_message = kept_message status (normalize_optional message);
    })

  -- Whether a record throws, and the effects with it.
  unfoldable pub record_with_status :
      (DeliveryEvent V → Option Error)
      → Envelope A V
      → DeliveryStatus
      → Option String
      → Effects A V
      → Option Error × Effects A V
  record_with_status upsert e status message f = elim (delivery_event e status message) [
    | err x ↦ (some x, f)
    | ok event ↦ (upsert event, record f { recorded = f.recorded ++ event ∷ [] })
  ]

  -- The `catch`: an error of `recordFailed` takes the place of the one caught.
  unfoldable pub record_failure :
      (DeliveryEvent V → Option Error)
      → Envelope A V
      → Error
      → Effects A V
      → Result Error (Outcome A V) × Effects A V
  record_failure upsert e x f =
      let (thrown', f') = record_with_status upsert e failed (some (to_error_message x)) f in
      (err (get_or thrown' x), f')

  -- Behind `recordSent`.
  abbrev pub after_sent :
      (DeliveryEvent V → Option Error)
      → Envelope A V
      → Option Error × Effects A V
      → Result Error (Outcome A V) × Effects A V
  after_sent upsert e (some x, f) = record_failure upsert e x f
  after_sent upsert e (none, f) = (ok (published e), f)

  -- Behind `publish`.
  abbrev pub after_publish :
      (DeliveryEvent V → Option Error)
      → Envelope A V
      → Option Error
      → Effects A V
      → Result Error (Outcome A V) × Effects A V
  after_publish upsert e (some x) f = record_failure upsert e x f
  after_publish upsert e none f = after_sent upsert e (record_with_status upsert e sent none f)

  -- Behind `recordPending`, whose error is not caught.
  abbrev pub after_pending :
      (DeliveryEvent V → Option Error)
      → (Envelope A V → Option Error)
      → Envelope A V
      → Option Error × Effects A V
      → Result Error (Outcome A V) × Effects A V
  after_pending upsert publish e (some x, f) = (err x, f)
  after_pending upsert publish e (none, f) =
      after_publish upsert e (publish e) (record f { sent_out = f.sent_out ++ e ∷ [] })

  unfoldable pub deliver :
      (DeliveryEvent V → Option Error)
      → (Envelope A V → Option Error)
      → Envelope A V
      → Effects A V
      → Result Error (Outcome A V) × Effects A V
  deliver upsert publish e f =
      after_pending upsert publish e (record_with_status upsert e pending none f)

  -- With the three services at hand, from the ids on.
  unfoldable pub publish_configured :
      ReplyCallback A V
      → (String → ℕ → Result Error Bool)
      → (DeliveryEvent V → Option Error)
      → (Envelope A V → Option Error)
      → ReplyInput A V
      → (turn_id reply_text agent_id key : String) → Result Error (Outcome A V) × Effects A V
  publish_configured c reserve upsert publish input turn_id reply_text agent_id key =
      elim (c.source_by_agent_turn agent_id turn_id) [
        | err x ↦ (err x, no_effects)
        | ok none ↦ (ok (skipped source_not_found), no_effects)
        | ok (some source) ↦ elim (is_bound c.is_route_bound source agent_id) [
          | err x ↦ (err x, no_effects)
          | ok false ↦ (ok (skipped binding_not_found), no_effects)
          | ok true ↦
              let f : Effects A V = record no_effects { reserved = key ∷ [] } in
              elim (reserve key c.ttl_seconds) [
                | err x ↦ (err x, f)
                | ok true ↦ (ok duplicate, f)
                | ok false ↦
                    deliver upsert publish (build_envelope c input source turn_id reply_text key) f
              ]
        ]
      ]

  unfoldable pub publish_ids :
      ReplyCallback A V
      → (String → ℕ → Result Error Bool)
      → (DeliveryEvent V → Option Error)
      → (Envelope A V → Option Error)
      → ReplyInput A V
      → (turn_id reply_text : String) → Result Error (Outcome A V) × Effects A V
  publish_ids c reserve upsert publish input turn_id reply_text = elim (normalize input.agent_id) [
    | none ↦ (err (empty_field "agentId"), no_effects)
    | some agent_id ↦ elim (normalize input.callback_idempotency_key) [
      | none ↦ (err (empty_field "callbackIdempotencyKey"), no_effects)
      | some key ↦ publish_configured c reserve upsert publish input turn_id reply_text agent_id key
    ]
  ]

  -- `!service` for the three services.
  unfoldable pub publish_text :
      ReplyCallback A V
      → ReplyInput A V
      → (turn_id reply_text : String) → Result Error (Outcome A V) × Effects A V
  publish_text c input turn_id reply_text = elim c.reserve [
    | none ↦ (ok (skipped callback_not_configured), no_effects)
    | some reserve ↦ elim c.upsert_by_callback_key [
      | none ↦ (ok (skipped callback_not_configured), no_effects)
      | some upsert ↦ elim c.publish [
        | none ↦ (ok (skipped callback_not_configured), no_effects)
        | some publish ↦ publish_ids c reserve upsert publish input turn_id reply_text
      ]
    ]
  ]

  unfoldable pub publish_assistant_reply_by_turn :
      ReplyCallback A V → ReplyInput A V → Result Error (Outcome A V) × Effects A V
  publish_assistant_reply_by_turn c input = elim (normalize_optional input.turn_id) [
    | none ↦ (ok (skipped turn_id_missing), no_effects)
    | some turn_id ↦ elim (normalize_optional input.reply_text) [
      | none ↦ (ok (skipped empty_reply), no_effects)
      | some reply_text ↦ elim (normalize_optional input.team_id) [
        | some team ↦ (ok (skipped team_target_not_supported), no_effects)
        | none ↦ publish_text c input turn_id reply_text
      ]
    ]
  ]

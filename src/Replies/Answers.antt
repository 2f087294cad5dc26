-- ===== src/Replies/Answers.antt =====
-- Which envelope answers a reply, and the records of its delivery.
use autobyteus_server_ts.Common.{
  get_or, ok, err, >>=-eq-ok, String, ◌≡◌, refl, true, Option, none, some, List, [], ◌∷◌, ◌++◌,
}
use autobyteus_server_ts.Common.Text.{normalize, normalize_optional}
use autobyteus_server_ts.Replies.{
  Source, normalize_required, Error, ReplyInput, Envelope, DeliveryEvent, DeliveryStatus, failed,
  Effects, ReplyCallback, build_envelope, delivery_event, record_with_status, record_failure,
  is_bound, to_error_message,
}

module _ {A V : Type 0} where
  -- The envelope carries the trimmed text of the reply, under its trimmed key, to where the message
  -- that the turn answers came from, whose route is still bound to the agent. It names the message
  -- that the input names, or else that one; it has the attachments of the input, and without metadata
  -- it notes the turn.
  pub record IsReplyTo (c : ReplyCallback A V) (input : ReplyInput A V) (e : Envelope A V)
      : Type 0 where
    pub turn_id : String
    pub agent_id : String
    pub source : Source
    pub turn : normalize_optional input.turn_id ≡ some turn_id
    pub agent : normalize input.agent_id ≡ some agent_id
    pub found : c.source_by_agent_turn agent_id turn_id ≡ ok (some source)
    pub bound : is_bound c.is_route_bound source agent_id ≡ ok true
    pub not_of_team : normalize_optional input.team_id ≡ none
    pub text : normalize_optional input.reply_text ≡ some e.reply_text
    pub key : normalize input.callback_idempotency_key ≡ some e.callback_idempotency_key
    pub account : e.account_id ≡ source.account_id
    pub peer : e.peer_id ≡ source.peer_id
    pub thread : e.thread_id ≡ source.thread_id
    pub provider : e.provider ≡ source.provider
    pub transport : e.transport ≡ source.transport
    pub correlated :
        (id : String)
        → normalize_optional input.correlation_message_id ≡ some id
        → e.correlation_message_id ≡ id
    pub answering :
        normalize_optional input.correlation_message_id ≡ none
        → e.correlation_message_id ≡ source.external_message_id
    pub attached : (l : List A) → input.attachments ≡ some l → e.attachments ≡ l
    pub unattached : input.attachments ≡ none → e.attachments ≡ []
    pub noted : input.metadata ≡ none → e.metadata ≡ ("turnId", c.text_value turn_id) ∷ []

  pub delivery_event-total :
      (e : Envelope A V) (status other : DeliveryStatus) (message message' : Option String)
      (d : DeliveryEvent V)
      → delivery_event e status message ≡ ok d
      → (d' : DeliveryEvent V) × (delivery_event e other message' ≡ ok d') × (d'.status ≡ other)
  unfolding delivery_event
  delivery_event-total e status other message message' d h =
      let (account, e1, h1) = >>=-eq-ok (normalize_required e.account_id "accountId") _ h in
      let (peer, e2, h2) = >>=-eq-ok (normalize_required e.peer_id "peerId") _ h1 in
      let (key, e3, h3) =
        >>=-eq-ok (normalize_required e.callback_idempotency_key "callbackIdempotencyKey") _ h2 in
      rw (e1, e2, e3) (_, refl, refl)

  pub record_with_status-ok :
      (upsert : DeliveryEvent V → Option Error) (e : Envelope A V) (status : DeliveryStatus)
      (message : Option String) (f : Effects A V) (d : DeliveryEvent V)
      → delivery_event e status message ≡ ok d
      → record_with_status upsert e status message f
        ≡ (upsert d, record f { recorded = f.recorded ++ d ∷ [] })
  unfolding record_with_status
  record_with_status-ok upsert e status message f d h = rw (h, record_with_status) refl

  pub record_failure-ok :
      (upsert : DeliveryEvent V → Option Error) (e : Envelope A V) (x : Error) (f : Effects A V)
      (d : DeliveryEvent V)
      → delivery_event e failed (some (to_error_message x)) ≡ ok d
      → record_failure upsert e x f
        ≡ (err (get_or (upsert d) x), record f { recorded = f.recorded ++ d ∷ [] })
  unfolding record_failure
  record_failure-ok upsert e x f d h =
      rw (record_with_status-ok upsert e failed (some (to_error_message x)) f d h, record_failure)
        refl

  pub build_envelope-IsReplyTo :
      (c : ReplyCallback A V) (input : ReplyInput A V) (source : Source)
      (turn_id reply_text agent_id key : String)
      → normalize_optional input.turn_id ≡ some turn_id
      → normalize_optional input.reply_text ≡ some reply_text
      → normalize_optional input.team_id ≡ none
      → normalize input.agent_id ≡ some agent_id
      → normalize input.callback_idempotency_key ≡ some key
      → c.source_by_agent_turn agent_id turn_id ≡ ok (some source)
      → is_bound c.is_route_bound source agent_id ≡ ok true
      → IsReplyTo c input (build_envelope c input source turn_id reply_text key)
  unfolding build_envelope
  build_envelope-IsReplyTo c input source turn_id reply_text agent_id key t x m a k e b = record {
    turn_id = turn_id;
    agent_id = agent_id;
    source = source;
    turn = t;
    agent = a;
    found = e;
    bound = b;
    not_of_team = m;
    text = x;
    key = k;
    account = refl;
    peer = refl;
    thread = refl;
    provider = refl;
    transport = refl;
    correlated = λ id h. rw h refl;
    answering = λ h. rw h refl;
    attached = λ l h. rw h refl;
    unattached = λ h. rw h refl;
    noted = λ h. rw h refl;
  }

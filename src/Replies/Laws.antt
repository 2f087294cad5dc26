-- ===== src/Replies/Laws.antt =====
-- What a reply leaves behind, on every path.
use autobyteus_server_ts.Replies.Answers.{IsReplyTo}
use autobyteus_server_ts.Common.{
  Result, ok, err, ℕ, String, ◌≡◌, ◌⊎◌, Bool, true, false, some, List, [], ◌∷◌,
}
use autobyteus_server_ts.Common.Text.{normalize}
use autobyteus_server_ts.Replies.{
  Error, ReplyInput, Envelope, DeliveryEvent, DeliveryStatus, Outcome, published, duplicate,
  skipped, pending, sent, failed, Effects, ReplyCallback, no_effects,
}

-- The statuses recorded, in order.
abbrev pub statuses : {V : Type 0} → List (DeliveryEvent V) → List DeliveryStatus
statuses [] = []
statuses (e ∷ es) = e.status ∷ statuses es

module _ {A V : Type 0} where
  -- What the service that reserves keys answers for the key.
  abbrev pub Reserves : ReplyCallback A V → String → Bool → Type 0
  Reserves c key is_duplicate =
      (reserve : String → ℕ → Result Error Bool) × (c.reserve ≡ some reserve)
      × (reserve key c.ttl_seconds ≡ ok is_duplicate)

  -- An envelope is handed over: it answers the input, and its key was new.
  abbrev pub HandsOver : ReplyCallback A V → ReplyInput A V → Envelope A V → Effects A V → Type 0
  HandsOver c input e f =
      IsReplyTo c input e
      × Reserves c e.callback_idempotency_key false
      × (f.reserved ≡ e.callback_idempotency_key ∷ [])
      × (f.sent_out ≡ e ∷ [])

  -- What a call leaves behind, by its answer.
  abbrev pub Leaves :
      ReplyCallback A V → ReplyInput A V → Result Error (Outcome A V) → Effects A V → Type 0
  Leaves c input (ok (published e)) f =
      HandsOver c input e f × (statuses f.recorded ≡ pending ∷ sent ∷ [])
  Leaves c input (ok duplicate) f =
      ((key : String) × (normalize input.callback_idempotency_key ≡ some key)
        × Reserves c key true
        × (f.reserved ≡ key ∷ []))
      × (f.sent_out ≡ [])
      × (f.recorded ≡ [])
  Leaves c input (ok (skipped why)) f = f ≡ no_effects
  Leaves c input (err x) f =
      ((f.sent_out ≡ []) × ((statuses f.recorded ≡ []) ⊎ (statuses f.recorded ≡ pending ∷ [])))
      ⊎ ((e : Envelope A V) × HandsOver c input e f
          × ((statuses f.recorded ≡ pending ∷ failed ∷ [])
              ⊎ (statuses f.recorded ≡ pending ∷ sent ∷ failed ∷ [])))

  abbrev reserved_for : Envelope A V → Effects A V
  reserved_for e = record no_effects { reserved = e.callback_idempotency_key ∷ [] }

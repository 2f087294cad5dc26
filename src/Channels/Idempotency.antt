-- ===== src/Channels/Idempotency.antt =====
-- src/external-channel/services/channel-idempotency-service.ts and
-- src/external-channel/providers/sql-channel-idempotency-provider.ts: the keys of the messages that
-- were seen. The database table is calls on a store; times are in milliseconds.
use autobyteus_server_ts.Common.{
  leb, ◌==◌, if◌then◌else◌, get_or, Result, ok, err, or_throw, ℕ, ◌+◌, ◌*◌, String, Bool, true,
  false, not, Option, none, some,
}
use autobyteus_server_ts.Common.Actions.{Action, ◌>>=◌, reads}
use autobyteus_server_ts.Common.Text.{normalize}

pub data ChannelError : Type 0 where
  empty_key : ChannelError
  unique_constraint : ChannelError
  no_dispatch_target : ChannelError
  service_failed : String → ChannelError

pub record KeyRow : Type 0 where
  pub key : String
  pub first_seen_at : ℕ
  pub expires_at : Option ℕ

-- The table of keys. `update` writes the time of the first sight, and the expiry if it is given one.
pub record KeyTable (S : Type 0) : Type 0 where
  pub create : (key : String) → (expires_at : Option ℕ) → Action S ChannelError KeyRow
  pub find_unique : String → Action S ChannelError (Option KeyRow)
  pub update :
      (key : String) → (first_seen_at : ℕ) → (expires_at : Option ℕ) → Action S ChannelError KeyRow

pub record Reservation : Type 0 where
  pub first_seen : Bool
  pub row : Option KeyRow

pub record IdempotencyDecision : Type 0 where
  pub duplicate : Bool
  pub key : String
  pub first_seen_at : Option ℕ
  pub expires_at : Option ℕ

abbrev pub compute_expiry : ℕ → ℕ → Option ℕ
compute_expiry now ttl_seconds = if ttl_seconds == 0 then none else some (now + ttl_seconds * 1000)

abbrev pub has_expired : Option ℕ → ℕ → Bool
has_expired none now = false
has_expired (some e) now = leb e now

module _ {S : Type 0} (table : KeyTable S) where
  -- The row that was found when the key could not be created.
  abbrev pub refresh_key :
      (key : String)
      → (expires_at : Option ℕ) → (now : ℕ) → Option KeyRow
      → Action S ChannelError Reservation
  refresh_key key expires_at now none = reads (λ s. ok (record { first_seen = false; row = none }))
  refresh_key key expires_at now (some r) =
      if has_expired r.expires_at now
      then (table.update key now expires_at
          >>= (λ refreshed. reads (λ s. ok (record { first_seen = true; row = some refreshed }))))
      else reads (λ s. ok (record { first_seen = false; row = some r }))

  abbrev pub created_or_found :
      (key : String)
      → (expires_at : Option ℕ) → (now : ℕ) → Result ChannelError KeyRow
      → Action S ChannelError Reservation
  created_or_found key expires_at now (ok created) =
      reads (λ s. ok (record { first_seen = true; row = some created }))
  created_or_found key expires_at now (err unique_constraint) =
      table.find_unique key >>= refresh_key key expires_at now
  created_or_found key expires_at now (err e) = reads (λ s. err e)

  unfoldable pub reserve_key :
      (key : String) → (ttl_seconds now : ℕ) → Action S ChannelError Reservation
  reserve_key key ttl_seconds now = do
    normalized ← reads (λ s. or_throw (normalize key) empty_key)
    λ s.
        let (created, s') = table.create normalized (compute_expiry now ttl_seconds) s in
        created_or_found normalized (compute_expiry now ttl_seconds) now created s'

  abbrev pub decision_of : String → Reservation → IdempotencyDecision
  decision_of key r = record {
    duplicate = not r.first_seen;
    key = key;
    first_seen_at = elim r.row [ none ↦ none | some x ↦ some x.first_seen_at ];
    expires_at = elim r.row [ none ↦ none | some x ↦ x.expires_at ];
  }

  unfoldable pub ensure_first_seen :
      (ttl_seconds : Option ℕ)
      → (key : String) → (now : ℕ) → Action S ChannelError IdempotencyDecision
  ensure_first_seen ttl_seconds key now = do
    normalized ← reads (λ s. or_throw (normalize key) empty_key)
    r ← reserve_key normalized (get_or ttl_seconds 3600) now
    reads (λ s. ok (decision_of normalized r))

-- ===== src/EnvelopeAuth.antt =====
-- src/distributed/security/internal-envelope-auth.ts: requests between nodes are signed, and a
-- request that comes again is refused. HMAC, the hex decoder, `JSON.stringify` of a scalar,
-- `localeCompare`, `Number` and the store of secrets are parameters; the clock and the nonce are
-- arguments. `Number` gives whole numbers here.
pub mod Envelope
pub mod Acceptance
pub mod Signing
pub mod Replay
mod Tests
use autobyteus_server_ts.Common.{
  leb, if◌then◌else◌, get_or, Result, ok, ◌>>=◌, or_throw, filter, ℕ, ◌+◌, ◌-◌, String, Bool, true,
  Option, none, some, List, [], ◌∷◌,
}
use autobyteus_server_ts.Common.Text.{normalize, normalize_optional, join}
use autobyteus_server_ts.Common.Dict.{Dict, set, contains}

-- The library's integers, over the native numbers.
pub data ℤ : Type 0 where
  pos : ℕ → ℤ
  negsuc : ℕ → ℤ

-- A request's body: scalars stand as `JSON.stringify` writes them.
mutual
  pub data Json : Type 0 where
    scalar : String → Json
    array : Items → Json
    object : Entries → Json

  pub data Items : Type 0 where
    no_items : Items
    item : Json → Items → Items

  pub data Entries : Type 0 where
    no_entries : Entries
    entry : String → Json → Entries → Entries

-- A header as `unknown`: a text, an array by its first element, or anything else.
pub data HeaderValue : Type 0 where
  text : String → HeaderValue
  first_of : HeaderValue → HeaderValue
  other : HeaderValue

pub record Headers : Type 0 where
  pub node_id : HeaderValue
  pub ts : HeaderValue
  pub nonce : HeaderValue
  pub key_id : HeaderValue
  pub signature : HeaderValue

pub data SecurityMode : Type 0 where
  strict_signed trusted_lan : SecurityMode

-- The codes of the source, with what their messages mention.
pub data Rejection : Type 0 where
  missing_source_node : Rejection
  source_node_not_allowed : String → Rejection
  missing_timestamp invalid_timestamp timestamp_out_of_range : Rejection
  missing_nonce replay_detected missing_key_id missing_signature : Rejection
  unknown_key_id : String → Rejection
  invalid_signature : Rejection

pub data Error : Type 0 where
  empty_field : String → Error
  no_secret : String → Error

pub record AuthOptions : Type 0 where
  pub local_node_id : String
  pub default_key_id : Option String
  pub allowed_node_ids : Option (List String)
  pub max_clock_skew_ms : Option ℕ
  pub nonce_ttl_ms : Option ℕ

pub record EnvelopeAuth : Type 0 where
  pub local_node_id : String
  pub default_key_id : String
  pub allowed_node_ids : Option (List String)
  pub max_clock_skew_ms : ℕ
  pub nonce_ttl_ms : ℕ
  pub nonce_seen_at_ms : Dict ℕ

-- The allowlist, trimmed and without blanks.
abbrev pub trim_all : List String → List String
trim_all [] = []
trim_all (id ∷ ids) = elim (normalize id) [ none ↦ trim_all ids | some t ↦ t ∷ trim_all ids ]

unfoldable pub new_auth : AuthOptions → Result Error EnvelopeAuth
new_auth o = do
  local ← or_throw (normalize o.local_node_id) (empty_field "localNodeId")
  ok (record {
    local_node_id = local;
    default_key_id = get_or (normalize_optional o.default_key_id) "default";
    allowed_node_ids = elim o.allowed_node_ids [ none ↦ none | some ids ↦ some (trim_all ids) ];
    max_clock_skew_ms = get_or o.max_clock_skew_ms 30000;
    nonce_ttl_ms = get_or o.nonce_ttl_ms 120000;
    nonce_seen_at_ms = [];
  })

abbrev pub normalize_header : HeaderValue → Option String
normalize_header (text s) = normalize s
normalize_header (first_of v) = normalize_header v
normalize_header other = none

unfoldable pub build_canonical_payload : String → String → String → String → String
build_canonical_payload source timestamp nonce body_hash =
    join "\n" (source ∷ timestamp ∷ nonce ∷ body_hash ∷ [])

unfoldable pub build_nonce_key : String → String → String
build_nonce_key source nonce = join ":" (source ∷ nonce ∷ [])

unfoldable pub prune_nonces : EnvelopeAuth → ℕ → EnvelopeAuth
prune_nonces a now = record a {
  nonce_seen_at_ms = filter (λ e. leb (now - e.1) a.nonce_ttl_ms) a.nonce_seen_at_ms;
}

unfoldable pub register_nonce : EnvelopeAuth → String → String → ℕ → EnvelopeAuth
register_nonce a source nonce now =
    let p = prune_nonces a now in
    record p { nonce_seen_at_ms = set p.nonce_seen_at_ms (build_nonce_key source nonce) now }

-- `Math.abs(now - timestampMs)`.
abbrev pub distance : ℕ → ℤ → ℕ
distance now (pos t) = if leb t now then now - t else t - now
distance now (negsuc t) = now + t + 1

abbrev pub is_allowed : Option (List String) → String → Bool
is_allowed none source = true
is_allowed (some ids) source = contains ids source

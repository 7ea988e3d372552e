-- ===== src/Common/Ws.antt =====
-- crates/common/src/protocol/ws.rs: the messages of the scriptum-sync protocol.
use scriptum.Prelude.{String, Option, Bool, ◌||◌, ◌==◌, string_eq, ℕ, List}
use scriptum.Prelude.Numbers.{Uuid, ℤ}

abbrev pub current_protocol_version : String
current_protocol_version = "scriptum-sync.v1"

abbrev pub previous_protocol_version : String
previous_protocol_version = "scriptum-sync.v0"

unfoldable pub is_supported_protocol_version : String → Bool
is_supported_protocol_version version =
    version == current_protocol_version || version == previous_protocol_version

-- `Peer` stands for `serde_json::Value`, which the relay passes on.
pub data WsMessage (Peer : Type 0) : Type 0 where
  -- protocol version, session token, resume token
  hello : String → String → Option String → WsMessage Peer
  -- server time, whether the resume was accepted, resume token and its expiry; times as instants
  hello_ack : ℕ → Bool → String → ℕ → WsMessage Peer
  -- document, last server sequence number
  subscribe : Uuid → Option ℤ → WsMessage Peer
  -- document, client, client update, base server sequence number, payload
  yjs_update : Uuid → Uuid → Uuid → ℤ → String → WsMessage Peer
  -- document, client update, server sequence number, applied
  ack : Uuid → Uuid → ℕ → Bool → WsMessage Peer
  -- document, snapshot sequence number, payload
  snapshot : Uuid → ℕ → String → WsMessage Peer
  awareness_update : Uuid → List Peer → WsMessage Peer
  -- code, retryable, document; the text for people is left out
  error : String → Bool → Option Uuid → WsMessage Peer

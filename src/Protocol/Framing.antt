-- ===== src/Protocol/Framing.antt =====
-- runtime/crates/protocol/src/framing.rs: frames of the TCP control channel. Bytes, `u16` and `u32`
-- are natural numbers; a slice is a list. A `usize` has 64 bits, so a `u32` always fits one.
pub mod RoundTrip
mod Examples
use mumble_server_runtime.Base.{
  ℕ, ◌+◌, ◌*◌, ◌/◌, ◌%◌, ◌^◌, Option, none, some, List, [], ◌∷◌, ◌++◌, Result, ok, err, ltb, leb,
  length, take, if◌then◌else◌, nat_eq,
}
use mumble_server_runtime.Base.Assoc.{Assoc, get}

abbrev pub header_len : ℕ
header_len = 6

abbrev pub max_payload_len : ℕ
max_payload_len = 8388607

pub data FramingError : Type 0 where
  payload_too_large : ℕ → ℕ → FramingError
  unknown_message_type : ℕ → FramingError

pub record Frame : Type 0 where
  pub message_type : ℕ
  pub payload : List ℕ

unfoldable pub total_len : Frame → ℕ
total_len f = header_len + length f.payload

abbrev pub from_be_bytes : ℕ → ℕ → ℕ → ℕ → ℕ
from_be_bytes b3 b2 b1 b0 = ((b3 * 256 + b2) * 256 + b1) * 256 + b0

-- What follows the header: the declared payload, if it is all there.
parse_payload : ℕ → ℕ → List ℕ → Result FramingError (Option Frame)
parse_payload message_type declared rest =
    if ltb max_payload_len declared
    then err (payload_too_large declared max_payload_len)
    else if leb declared (length rest)
    then ok (some (record { message_type = message_type; payload = take declared rest }))
    else ok none

unfoldable pub parse_frame : List ℕ → Result FramingError (Option Frame)
unfolding parse_payload
parse_frame (t1 ∷ t0 ∷ b3 ∷ b2 ∷ b1 ∷ b0 ∷ rest) =
    parse_payload (t1 * 256 + t0) (from_be_bytes b3 b2 b1 b0) rest
parse_frame _ = ok none

abbrev u16_to_be_bytes : ℕ → List ℕ
u16_to_be_bytes n = n / 256 % 256 ∷ n % 256 ∷ []

abbrev u32_to_be_bytes : ℕ → List ℕ
u32_to_be_bytes n = n / 16777216 % 256 ∷ n / 65536 % 256 ∷ n / 256 % 256 ∷ n % 256 ∷ []

-- Onto the end of `out`.
unfoldable pub write_frame : ℕ → List ℕ → List ℕ → Result FramingError (List ℕ)
write_frame message_type payload out =
    let declared = length payload in
    if leb (2 ^ 32) declared
    then err (payload_too_large (max_payload_len + 1) max_payload_len)
    else if ltb max_payload_len declared
    then err (payload_too_large declared max_payload_len)
    else ok (out ++ (u16_to_be_bytes message_type ++ (u32_to_be_bytes declared ++ payload)))

pub data TcpMessageType : Type 0 where
  version : TcpMessageType
  udp_tunnel : TcpMessageType
  authenticate : TcpMessageType
  ping : TcpMessageType
  reject : TcpMessageType
  server_sync : TcpMessageType
  channel_remove : TcpMessageType
  channel_state : TcpMessageType
  user_remove : TcpMessageType
  user_state : TcpMessageType
  ban_list : TcpMessageType
  text_message : TcpMessageType
  permission_denied : TcpMessageType
  acl : TcpMessageType
  query_users : TcpMessageType
  crypt_setup : TcpMessageType
  context_action_modify : TcpMessageType
  context_action : TcpMessageType
  user_list : TcpMessageType
  voice_target : TcpMessageType
  permission_query : TcpMessageType
  codec_version : TcpMessageType
  user_stats : TcpMessageType
  request_blob : TcpMessageType
  server_config : TcpMessageType
  suggest_config : TcpMessageType
  plugin_data_transmission : TcpMessageType

-- The arms of the match on the code.
abbrev pub known : Assoc ℕ TcpMessageType
known =
    (0, version)
    ∷ (1, udp_tunnel)
    ∷ (2, authenticate)
    ∷ (3, ping)
    ∷ (4, reject)
    ∷ (5, server_sync)
    ∷ (6, channel_remove)
    ∷ (7, channel_state)
    ∷ (8, user_remove)
    ∷ (9, user_state)
    ∷ (10, ban_list)
    ∷ (11, text_message)
    ∷ (12, permission_denied)
    ∷ (13, acl)
    ∷ (14, query_users)
    ∷ (15, crypt_setup)
    ∷ (16, context_action_modify)
    ∷ (17, context_action)
    ∷ (18, user_list)
    ∷ (19, voice_target)
    ∷ (20, permission_query)
    ∷ (21, codec_version)
    ∷ (22, user_stats)
    ∷ (23, request_blob)
    ∷ (24, server_config)
    ∷ (25, suggest_config)
    ∷ (26, plugin_data_transmission)
    ∷ []

-- The arm that is taken, the last one binding `other`.
abbrev pub arm : ℕ → Option TcpMessageType → Result FramingError TcpMessageType
arm other none = err (unknown_message_type other)
arm other (some t) = ok t

unfoldable pub try_from : ℕ → Result FramingError TcpMessageType
unfolding get
try_from value = arm value (get known value)

unfoldable pub code : TcpMessageType → ℕ
code version = 0
code udp_tunnel = 1
code authenticate = 2
code ping = 3
code reject = 4
code server_sync = 5
code channel_remove = 6
code channel_state = 7
code user_remove = 8
code user_state = 9
code ban_list = 10
code text_message = 11
code permission_denied = 12
code acl = 13
code query_users = 14
code crypt_setup = 15
code context_action_modify = 16
code context_action = 17
code user_list = 18
code voice_target = 19
code permission_query = 20
code codec_version = 21
code user_stats = 22
code request_blob = 23
code server_config = 24
code suggest_config = 25
code plugin_data_transmission = 26

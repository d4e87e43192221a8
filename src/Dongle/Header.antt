-- ===== src/Dongle/Header.antt =====
-- The EZSP header that sendNextMsg writes against the one that handleInputData reads.
use libezsp.Common.{ℕ, ◌≡◌, ◌≢◌, arith, ◌!=◌, ◌&&◌, ◌||◌, leb}
use libezsp.Common.{Bool, true, false, List, ◌∷◌, some, IsU8}
use libezsp.AdapterVersion.{EzspAdapterVersion}
use libezsp.Dongle.{Msg, ezsp_message, ezsp_version, known_ezsp_protocol_version}
use libezsp.Dongle.{known_ezsp_protocol_version_ge, known_ezsp_protocol_version_lt}
use libezsp.Dongle.Receive.{parse_ezsp, parse_v8, parse_legacy, parse_short}

-- The header has more than the three bytes of the oldest protocols: the adapter's protocol is
-- known, and is at least version 8 or the command is another than the request of the version.
abbrev pub has_long_header : EzspAdapterVersion → Msg → Bool
has_long_header v msg =
    (v.ezsp_protocol_version != 0) && (leb 8 v.ezsp_protocol_version || (msg.cmd != ezsp_version))

-- A message with a long header is read back as its command and payload, for every protocol version,
-- every sequence number and every command of one byte, an empty payload included.
pub parse-ezsp_message :
    (v : EzspAdapterVersion) (seq_num : ℕ) (msg : Msg)
    → IsU8 msg.cmd
    → has_long_header v msg ≡ true
    → parse_ezsp v (ezsp_message v seq_num msg) ≡ some (msg.cmd, msg.payload)
unfolding parse_ezsp parse_v8 parse_legacy parse_short ezsp_message known_ezsp_protocol_version_ge
    known_ezsp_protocol_version_lt known_ezsp_protocol_version
parse-ezsp_message v seq_num msg hc hl = ground arith

-- A message with the short header is read back if its payload is not empty and its command is not
-- 0xff, which is where the reader expects a long header.
pub parse-ezsp_message_short :
    (v : EzspAdapterVersion) (seq_num cmd p : ℕ) (ps : List ℕ)
    → IsU8 cmd
    → cmd ≢ 0xff
    → let msg : Msg = record { cmd = cmd; payload = p ∷ ps } in
      has_long_header v msg ≡ false → parse_ezsp v (ezsp_message v seq_num msg) ≡ some (cmd, p ∷ ps)
unfolding parse_ezsp parse_v8 parse_legacy parse_short ezsp_message known_ezsp_protocol_version_ge
    known_ezsp_protocol_version_lt known_ezsp_protocol_version
parse-ezsp_message_short v seq_num cmd p ps hc hf hl = ground arith

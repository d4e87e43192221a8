-- ===== src/Dongle/Link.antt =====
-- A command from the queue of CEzspDongle (src/ezsp/ezsp-dongle.cpp) to the other end of the link:
-- the frame on the serial port, the peer's AshCodec and its reading of the EZSP header.
use libezsp.Common.{
  ℕ, ◌≤◌, ◌≡◌, refl, arith, true, false, none, List, [], ◌∷◌, ◌++◌, length, some, All, IsU8,
  if◌then◌else◌, u8, ◌+◌,
}
use libezsp.Ash.Codec.{AshCodec, forge_data_frame}
use libezsp.Common.{if_true}
use libezsp.AdapterVersion.{EzspAdapterVersion}
use libezsp.Ash.Codec.Decode.{Progress, ok, append_incoming}
use libezsp.Dongle.{known_ezsp_protocol_version, known_ezsp_protocol_version_ge}
use libezsp.Dongle.{known_ezsp_protocol_version_lt}
use libezsp.Dongle.Header.{has_long_header, parse-ezsp_message}
use libezsp.Dongle.Receive.{parse_ezsp}
use libezsp.Dongle.Well.{IsWell}
use libezsp.Ash.Codec.Frames.{transfer_data}
use libezsp.Driver.{t_rx_ack_init}
use libezsp.Driver.Send.{send_data_frame_outcome, can_write, accepts}
use libezsp.Dongle.{
  EzspDongle, Msg, send_command, send_front, send_next_msg, ezsp_message, may_use_ezsp,
}

-- An idle adapter in EZSP mode writes exactly one frame for a command, the forged frame of its EZSP
-- message under the current sequence number, if it may write at all. It then waits for the response
-- exactly if the port took the whole frame, and the command stays at the front of the queue.
pub send_command_idle :
    (msg : Msg) (d : EzspDongle) (codec : AshCodec) (frame : List ℕ)
    → may_use_ezsp d.last_known_mode ≡ true
    → d.wait_rsp ≡ false
    → d.sending_msg_queue ≡ []
    → forge_data_frame d.ash.ash_codec (ezsp_message d.version d.ezsp_seq_num msg)
      ≡ some (codec, frame)
    → send_command msg.cmd msg.payload d
      ≡ some (record d {
        ezsp_seq_num = u8 (d.ezsp_seq_num + 1);
        sending_msg_queue = msg ∷ [];
        wait_rsp = accepts d.ash frame;
        ash = record (d.ash) {
          ack_timer = if accepts d.ash frame then some t_rx_ack_init else none;
          ash_codec = codec;
          sent = if can_write d.ash then d.ash.sent ++ (frame ∷ []) else d.ash.sent;
        };
      })
unfolding send_command send_next_msg send_front
send_command_idle msg d codec frame hm hw hq forged = ground (
  arith,
  send_data_frame_outcome d.ash (ezsp_message d.version d.ezsp_seq_num msg) codec frame forged,
)

ezsp_message-IsU8 :
    (v : EzspAdapterVersion) (seq_num : ℕ) (msg : Msg)
    → IsU8 seq_num
    → All IsU8 msg.payload
    → All IsU8 (ezsp_message v seq_num msg)
unfolding ezsp_message known_ezsp_protocol_version_ge known_ezsp_protocol_version_lt
    known_ezsp_protocol_version
ezsp_message-IsU8 v seq_num msg hs hp = ground arith

-- A command that an idle adapter with an open port sends is what the other end of the link reads: one
-- frame is written, the peer's codec extracts one payload from it, and that payload, read by the
-- rules for the same protocol version, is the command and its parameters. The frame has at most 132
-- bytes and the header is not the short one.
pub command_arrives :
    (msg : Msg) (d : EzspDongle) (peer codec : AshCodec) (frame : List ℕ)
    → IsWell d
    → IsU8 msg.cmd
    → All IsU8 msg.payload
    → has_long_header d.version msg ≡ true
    → may_use_ezsp d.last_known_mode ≡ true
    → d.wait_rsp ≡ false
    → d.sending_msg_queue ≡ []
    → can_write d.ash ≡ true
    → peer.in_msg ≡ []
    → forge_data_frame d.ash.ash_codec (ezsp_message d.version d.ezsp_seq_num msg)
      ≡ some (codec, frame)
    → length frame ≤ 132
    → (d' : EzspDongle) × (p : Progress) × (payload : List ℕ) × (send_command msg.cmd msg.payload d
        ≡ some d')
      × (d'.ash.sent ≡ d.ash.sent ++ (frame ∷ []))
      × (append_incoming frame peer ≡ ok p)
      × (p.payloads ≡ payload ∷ [])
      × (parse_ezsp d.version payload ≡ some (msg.cmd, msg.payload))
command_arrives msg d peer codec frame w hc hp hl hm hw hq writable empty forged room = (
  _,
  _,
  ezsp_message d.version d.ezsp_seq_num msg,
  send_command_idle msg d codec frame hm hw hq forged,
  if_true _ writable,
  transfer_data d.ash.ash_codec peer (ezsp_message d.version d.ezsp_seq_num msg) w.codec_valid
      (ezsp_message-IsU8 d.version d.ezsp_seq_num msg w.seq_small hp) empty forged room,
  refl,
  parse-ezsp_message d.version d.ezsp_seq_num msg hc hl,
)

-- ===== src/Dongle/Well.antt =====
-- What holds of a CEzspDongle (src/ezsp/ezsp-dongle.cpp) between two calls, and that its operations
-- come to an end and keep it.
use libezsp.Common.{ℕ, ◌+◌, ◌<◌, ◌≤◌, ◌≡◌, refl, arith, ◌==◌}
use libezsp.Common.{Bool, true, false, List, [], ◌∷◌, ◌++◌, length, Option, none, some}
use libezsp.Common.{All, All-append, if◌then◌else◌}
use libezsp.Ash.Codec.Valid.{IsValid, forge_data_frame-IsValid}
use libezsp.Ash.Codec.Frames.{forge_data_frame_lem}
use libezsp.AdapterVersion.{EzspAdapterVersion}
use libezsp.Driver.{AshDriver, send_data_frame}
use libezsp.Driver.Send.{send_data_frame_outcome}
use libezsp.Dongle.{EzspDongle, Msg, ezsp_message, send_front, send_next_msg, send_command}
use libezsp.Dongle.{handle_response}
use libezsp.Dongle.{known_ezsp_protocol_version, known_ezsp_protocol_version_ge}
use libezsp.Dongle.{known_ezsp_protocol_version_lt}

-- With the longest header the message has 255 bytes, the most that can be randomized.
abbrev pub IsSendable : Msg → Type 0
IsSendable m = length m.payload ≤ 250

abbrev pub not_empty : List Msg → Bool
not_empty [] = false
not_empty (m ∷ ms) = true

-- While a response is awaited, the command that it answers is still at the front of the queue.
pub record IsWell (d : EzspDongle) : Type 0 where
  pub codec_valid : IsValid d.ash.ash_codec
  pub seq_small : d.ezsp_seq_num < 256
  pub front_kept : d.wait_rsp ≡ true → not_empty d.sending_msg_queue ≡ true
  pub all_sendable : All IsSendable d.sending_msg_queue

-- The call comes to an end, and leaves the invariant.
abbrev pub IsKept : Option EzspDongle → Type 0
IsKept none = ⊥
IsKept (some d) = IsWell d

length-ezsp_message :
    (v : EzspAdapterVersion) (seq_num : ℕ) (msg : Msg)
    → length (ezsp_message v seq_num msg) ≤ length msg.payload + 5
unfolding ezsp_message known_ezsp_protocol_version_ge known_ezsp_protocol_version_lt
    known_ezsp_protocol_version
length-ezsp_message v seq_num msg = ground arith

send_data_frame-total :
    (a : AshDriver) (bytes : List ℕ)
    → IsValid a.ash_codec
    → length bytes ≤ 255
    → (a' : AshDriver) × (sent_ok : Bool) × (send_data_frame a bytes ≡ some (a', sent_ok))
      × IsValid a'.ash_codec
send_data_frame-total a bytes v h =
    let forged = forge_data_frame_lem a.ash_codec bytes h in
    (_, _, send_data_frame_outcome a bytes _ _ forged, forge_data_frame-IsValid bytes _ v forged)

send_front-IsWell :
    (m : Msg) (ms : List Msg) (d : EzspDongle)
    → d.sending_msg_queue ≡ m ∷ ms
    → IsWell d
    → IsKept (send_front m d)
unfolding send_front
send_front-IsWell m ms d e w =
    let (a, sent_ok, e', v) =
      send_data_frame-total d.ash (ezsp_message d.version d.ezsp_seq_num m) w.codec_valid
        (ground (arith, length-ezsp_message d.version d.ezsp_seq_num m, w.all_sendable)) in
    rw e' (record {
      codec_valid = v;
      seq_small = omega arith;
      front_kept = λ waits. rw e refl;
      all_sendable = w.all_sendable;
    })

send_first-IsWell :
    (q : List Msg) (d : EzspDongle)
    → d.sending_msg_queue ≡ q
    → IsWell d
    → IsKept (elim q [ [] ↦ some d | msg ∷ rest ↦ send_front msg d ])
send_first-IsWell [] d e w = w
send_first-IsWell (m ∷ ms) d e w = send_front-IsWell m ms d e w

-- Sending what is at the front of the queue ends and keeps the invariant.
pub send_next_msg-IsWell : (d : EzspDongle) → IsWell d → IsKept (send_next_msg d)
unfolding send_next_msg
send_next_msg-IsWell d w = ground (arith, send_first-IsWell d.sending_msg_queue d refl w)

not_empty-append : (q : List Msg) (m : Msg) → not_empty (q ++ (m ∷ [])) ≡ true
not_empty-append [] m = refl
not_empty-append (x ∷ q) m = refl

-- A command whose payload has at most 250 bytes is queued and the front of the queue is sent: the
-- call ends and keeps the invariant.
pub send_command-IsWell :
    (cmd : ℕ) (payload : List ℕ) (d : EzspDongle)
    → length payload ≤ 250
    → IsWell d
    → IsKept (send_command cmd payload d)
unfolding send_command
send_command-IsWell cmd payload d h w =
    let m : Msg = record { cmd = cmd; payload = payload } in
    send_next_msg-IsWell _ (record {
      codec_valid = w.codec_valid;
      seq_small = w.seq_small;
      front_kept = λ waits. not_empty-append d.sending_msg_queue m;
      all_sendable = All-append IsSendable d.sending_msg_queue (m ∷ []) w.all_sendable (h, tt);
    })

pop_front-IsWell :
    (m : Msg) (ms : List Msg) (d : EzspDongle)
    → d.sending_msg_queue ≡ m ∷ ms
    → IsWell d
    → IsWell (record d { sending_msg_queue = ms; wait_rsp = false })
pop_front-IsWell m ms d e w = ground arith

answer-IsWell :
    (cmd : ℕ) (q : List Msg) (d : EzspDongle)
    → d.sending_msg_queue ≡ q
    → IsWell d
    → IsKept (elim q [
      | [] ↦ some d
      | msg ∷ rest ↦
          if msg.cmd == cmd
          then send_next_msg (record d { sending_msg_queue = rest; wait_rsp = false })
          else some d
    ])
answer-IsWell cmd [] d e w = w
answer-IsWell cmd (m ∷ ms) d e w =
    ground (arith, send_next_msg-IsWell _ (pop_front-IsWell m ms d e w))

-- A response, expected or not, is handled to the end and keeps the invariant.
pub handle_response-IsWell : (cmd : ℕ) (d : EzspDongle) → IsWell d → IsKept (handle_response cmd d)
unfolding handle_response
handle_response-IsWell cmd d w = answer-IsWell cmd d.sending_msg_queue d refl w

pub put_ash-IsWell :
    (a : AshDriver) (d : EzspDongle)
    → IsValid a.ash_codec
    → IsWell d
    → IsWell (record d { ash = a })
put_ash-IsWell a d v w = record {
  codec_valid = v;
  seq_small = w.seq_small;
  front_kept = w.front_kept;
  all_sendable = w.all_sendable;
}

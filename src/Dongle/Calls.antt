-- ===== src/Dongle/Calls.antt =====
-- That the calls which CEzspDongle gets from the link (src/ezsp/ezsp-dongle.cpp) end and keep what
-- holds of it between two calls.
use libezsp.Common.{
  ℕ, ◌≡◌, ◌<◌, Bool-cases, inl, inr, sym, ap, ◌∙◌, if_true, if_false, refl, arith, false, List, [],
  ◌∷◌, Option, none, some,
}
use libezsp.Common.{All, if◌then◌else◌}
use libezsp.Ash.Codec.{forge_ack_frame, AshInfo}
use libezsp.Ash.Codec.{ash_reset_failed, ash_ack, ash_nack}
use libezsp.Ash.Codec.{ash_state_disconnected, ash_state_connected}
use libezsp.Ash.Codec.Valid.{IsValid}
use libezsp.Driver.{AshDriver, notified, send_ack_frame, send_reset_ncp_frame, stop_timer}
use libezsp.Driver as Driver
use mathlib.Core.Path.{subst}
use libezsp.Driver.Send.{send_ash_frame_lem}
use libezsp.Dongle.{EzspDongle, Mode, bootloader_firmware_upgrade}
use libezsp.Dongle.{bootloader_exit_to_ezsp_ncp, set_mode}
use libezsp.Dongle.Receive.{reset_failed, ash_cb_infos, answer_response, deliver}
use libezsp.Dongle.Receive.{handle_input_data, parse_ezsp, handle_payloads, receive_serial}
use libezsp.Dongle.Receive.{ash_timeout, prompt_detected, with_result, get_ash, put_ash}
use libezsp.Dongle.Receive as Receive
use libezsp.Dongle.Well.{
  not_empty, IsSendable, IsWell, IsKept, put_ash-IsWell, send_next_msg-IsWell,
  handle_response-IsWell,
}

-- The invariant reads four fields.
pub same_core-IsWell :
    (d d' : EzspDongle)
    → d'.ash.ash_codec ≡ d.ash.ash_codec
    → d'.ezsp_seq_num ≡ d.ezsp_seq_num
    → d'.wait_rsp ≡ d.wait_rsp
    → d'.sending_msg_queue ≡ d.sending_msg_queue
    → IsWell d
    → IsWell d'
same_core-IsWell d d' ec es ew eq w = record {
  codec_valid = subst IsValid (sym ec) w.codec_valid;
  seq_small = subst (λ n. n < 256) (sym es) w.seq_small;
  front_kept = λ waits. ap not_empty eq ∙ w.front_kept (sym ew ∙ waits);
  all_sendable = subst (All IsSendable) (sym eq) w.all_sendable;
}

pub set_mode-core :
    (m : Mode) (d : EzspDongle)
    → let d' = set_mode m d in
      (d'.ash.ash_codec ≡ d.ash.ash_codec)
      × (d'.ezsp_seq_num ≡ d.ezsp_seq_num)
      × (d'.wait_rsp ≡ d.wait_rsp)
      × (d'.sending_msg_queue ≡ d.sending_msg_queue)
unfolding set_mode Driver.disable
set_mode-core m d = ground arith

-- Changing the mode of the adapter keeps the invariant.
pub set_mode-IsWell : (m : Mode) (d : EzspDongle) → IsWell d → IsWell (set_mode m d)
set_mode-IsWell m d w =
    let (ec, es, ew, eq) = set_mode-core m d in same_core-IsWell d (set_mode m d) ec es ew eq w

reset_failed-IsWell : (d : EzspDongle) → IsWell d → IsWell (reset_failed d)
unfolding reset_failed
reset_failed-IsWell d w = elim (Bool-cases d.first_startup) [
  | inl e ↦
      let m =
        if d.switch_to_firmware_upgrade_on_init_timeout
        then bootloader_firmware_upgrade
        else bootloader_exit_to_ezsp_ncp in
      subst IsWell (sym (if_true _ e)) (
        same_core-IsWell (set_mode m d) (record (set_mode m d) { first_startup = false }) refl refl
          refl refl (set_mode-IsWell m d w))
  | inr e ↦ subst IsWell (sym (if_false _ e)) (same_core-IsWell d _ refl refl refl refl w)
]

nack-IsWell : (d : EzspDongle) → IsWell d → IsWell (record d { wait_rsp = false })
nack-IsWell d w = ground arith

pub ash_cb_info-IsWell :
    (i : AshInfo) (d : EzspDongle) → IsWell d → IsKept (Receive.ash_cb_info i d)
unfolding Receive.ash_cb_info
ash_cb_info-IsWell ash_state_connected d w = same_core-IsWell d _ refl refl refl refl w
ash_cb_info-IsWell ash_state_disconnected d w = same_core-IsWell d _ refl refl refl refl w
ash_cb_info-IsWell ash_nack d w = send_next_msg-IsWell _ (nack-IsWell d w)
ash_cb_info-IsWell ash_reset_failed d w = reset_failed-IsWell d w
ash_cb_info-IsWell ash_ack d w = w

-- One call after another.
pub then-IsKept :
    (o : Option EzspDongle) (next : EzspDongle → Option EzspDongle)
    → ((d : EzspDongle) → IsWell d → IsKept (next d))
    → IsKept o
    → IsKept (elim o [ none ↦ none | some d ↦ next d ])
then-IsKept none next h k = k
then-IsKept (some d) next h k = h d k

acknowledged-IsWell :
    (d : EzspDongle) → IsWell d → IsWell (record d { ash = (send_ack_frame d.ash).0 })
unfolding send_ack_frame
acknowledged-IsWell d w =
    let sent = send_ash_frame_lem d.ash (forge_ack_frame d.ash.ash_codec) in
    put_ash-IsWell _ d (subst IsValid (sym (ap (λ r. r.0.ash_codec) sent)) w.codec_valid) w

answer_response-IsWell : (cmd : ℕ) (d : EzspDongle) → IsWell d → IsKept (answer_response cmd d)
unfolding answer_response
answer_response-IsWell cmd d w = ground (
  arith,
  handle_response-IsWell cmd (record d { ash = (send_ack_frame d.ash).0 })
      (acknowledged-IsWell d w),
)

pub deliver-IsWell :
    (cmd : ℕ) (params : List ℕ) (d : EzspDongle) → IsWell d → IsKept (deliver cmd params d)
unfolding deliver
deliver-IsWell cmd params d w =
    then-IsKept (answer_response cmd d) _ (λ d' w'. same_core-IsWell d' _ refl refl refl refl w')
      (answer_response-IsWell cmd d w)

parsed-IsWell :
    (m : Option (ℕ × List ℕ)) (d : EzspDongle)
    → IsWell d
    → IsKept (elim m [ none ↦ some d | some m ↦ deliver m.0 m.1 d ])
parsed-IsWell none d w = w
parsed-IsWell (some m) d w = deliver-IsWell m.0 m.1 d w

-- Every EZSP message, refused ones included, is handled to the end and keeps the invariant.
pub handle_input_data-IsWell :
    (message : List ℕ) (d : EzspDongle) → IsWell d → IsKept (handle_input_data message d)
unfolding handle_input_data
handle_input_data-IsWell message d w =
    ground (arith, parsed-IsWell (parse_ezsp d.version message) d w)

pub handle_payloads-IsWell :
    (ps : List (List ℕ)) (d : EzspDongle) → IsWell d → IsKept (handle_payloads ps d)
unfolding handle_payloads
handle_payloads-IsWell [] d w = w
handle_payloads-IsWell (p ∷ ps) d w =
    then-IsKept (handle_input_data p d) (handle_payloads ps)
      (λ d' w'. handle_payloads-IsWell ps d' w') (handle_input_data-IsWell p d w)

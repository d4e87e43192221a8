-- ===== src/Dongle/Reset.antt =====
-- That the reset, the timeout and the bootloader's prompt (src/ezsp/ezsp-dongle.cpp) end and keep
-- what holds of a CEzspDongle between two calls.
use libezsp.Common.{
  ◌≡◌, Bool-cases, inl, inr, sym, if_true, if_false, refl, arith, Bool, List, [], ◌∷◌, Option, none,
  some,
}
use libezsp.Common.{not}
use libezsp.Ash.Codec.{forge_reset_ncp_frame, AshInfo}
use libezsp.Ash.Codec.Valid.{IsValid, forge_reset_ncp_frame-IsValid}
use libezsp.Driver.{AshDriver, notified, send_ack_frame, send_reset_ncp_frame, stop_timer}
use libezsp.Driver as Driver
use mathlib.Core.Path.{subst}
use libezsp.Driver.Send.{send_ash_frame_lem}
use libezsp.Dongle.{EzspDongle}
use libezsp.Dongle.Receive.{reset_failed, ash_cb_infos, answer_response, deliver}
use libezsp.Dongle.Receive.{handle_input_data, parse_ezsp, handle_payloads, receive_serial}
use libezsp.BootloaderPrompt.{PromptCallback, exit_to_ezsp_ncp, firmware_upgrade}
use libezsp.BootloaderPrompt as Prompt
use libezsp.Dongle.Receive.{ash_timeout, prompt_detected, with_result, get_ash, put_ash}
use libezsp.Dongle.Receive as Receive
use libezsp.Dongle.Well.{IsWell, IsKept}
use libezsp.Dongle.Calls.{same_core-IsWell, then-IsKept, ash_cb_info-IsWell}

ash_cb_infos-IsWell : (is : List AshInfo) (d : EzspDongle) → IsWell d → IsKept (ash_cb_infos is d)
unfolding ash_cb_infos
ash_cb_infos-IsWell [] d w = w
ash_cb_infos-IsWell (i ∷ is) d w =
    then-IsKept (Receive.ash_cb_info i d) (ash_cb_infos is) (λ d' w'. ash_cb_infos-IsWell is d' w')
      (ash_cb_info-IsWell i d w)

abbrev pub KeptWith : Option (EzspDongle × Bool) → Type 0
KeptWith none = ⊥
KeptWith (some r) = IsWell r.0

reset_codec_lem :
    (a : AshDriver) → ((send_reset_ncp_frame a).0).ash_codec ≡ (forge_reset_ncp_frame a.ash_codec).0
unfolding send_reset_ncp_frame
reset_codec_lem a =
    let forged = forge_reset_ncp_frame a.ash_codec in
    ground
      (arith, send_ash_frame_lem (record a { ack_timer = none; ash_codec = forged.0 }) forged.1)

result-KeptWith : (b : Bool) (o : Option EzspDongle) → IsKept o → KeptWith (with_result b o)
result-KeptWith b none h = h
result-KeptWith b (some d) h = h

sent_reset-IsWell :
    (d : EzspDongle) (a : AshDriver)
    → a.ash_codec ≡ (forge_reset_ncp_frame d.ash.ash_codec).0
    → IsWell d
    → IsWell (record d { ezsp_seq_num = 0; blp = Prompt.disable d.blp; ash = a })
sent_reset-IsWell d a e w = record {
  codec_valid = subst IsValid (sym e) (forge_reset_ncp_frame-IsValid w.codec_valid);
  seq_small = omega arith;
  front_kept = w.front_kept;
  all_sendable = w.all_sendable;
}

opened_reset-IsWell :
    (d : EzspDongle)
    → IsWell d
    → let (a, sent_ok, told) = send_reset_ncp_frame (Driver.enable d.ash) in
      KeptWith (
        with_result sent_ok
          (ash_cb_infos told (record d { ezsp_seq_num = 0; blp = Prompt.disable d.blp; ash = a })))
unfolding Driver.enable
opened_reset-IsWell d w =
    result-KeptWith _ _
      (ash_cb_infos-IsWell _ _ (sent_reset-IsWell d _ (reset_codec_lem (Driver.enable d.ash)) w))

-- Resetting the link ends and keeps the invariant, without a serial port too.
pub reset-IsWell : (d : EzspDongle) → IsWell d → KeptWith (Receive.reset d)
unfolding Receive.reset
reset-IsWell d w = elim (Bool-cases (not d.has_uart)) [
  | inl e ↦ subst KeptWith (sym (if_true _ e)) (record {
    codec_valid = w.codec_valid;
    seq_small = omega arith;
    front_kept = w.front_kept;
    all_sendable = w.all_sendable;
  })
  | inr e ↦ subst KeptWith (sym (if_false _ e)) (opened_reset-IsWell d w)
]

-- The expiry of the link's timer is handled to the end and keeps the invariant.
pub ash_timeout-IsWell : (d : EzspDongle) → IsWell d → IsKept (ash_timeout d)
unfolding ash_timeout
ash_timeout-IsWell d w =
    ash_cb_infos-IsWell (Driver.trigger d.ash) _ (same_core-IsWell d _ refl refl refl refl w)

first_result-IsWell :
    (o : Option (EzspDongle × Bool))
    → KeptWith o
    → IsKept (elim o [ none ↦ none | some r ↦ some r.0 ])
first_result-IsWell none h = h
first_result-IsWell (some r) h = h

-- The prompt of the bootloader is handled to the end and keeps the invariant.
pub prompt_detected-IsWell :
    (callback : PromptCallback) (d : EzspDongle) → IsWell d → IsKept (prompt_detected callback d)
unfolding prompt_detected Driver.enable
prompt_detected-IsWell exit_to_ezsp_ncp d w =
    first_result-IsWell _ (reset-IsWell _ (same_core-IsWell d _ refl refl refl refl w))
prompt_detected-IsWell firmware_upgrade d w = same_core-IsWell d _ refl refl refl refl w

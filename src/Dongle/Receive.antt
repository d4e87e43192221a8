-- ===== src/Dongle/Receive.antt =====
-- The parts of CEzspDongle (src/ezsp/ezsp-dongle.cpp) that answer the adapter: the link's callback,
-- the reset, the bootloader's prompt and the received EZSP messages.
use libezsp.Common.{ℕ, ◌==◌, ◌!=◌, if◌then◌else◌, not}
use libezsp.Common.{Bool, false, List, [], ◌∷◌, Option, none, some}
use libezsp.Ash.Codec.{AshInfo, ash_reset_failed, ash_ack, ash_nack}
use libezsp.Ash.Codec.{ash_state_disconnected, ash_state_connected}
use libezsp.AdapterVersion.{EzspAdapterVersion}
use libezsp.Driver.{AshDriver, send_reset_ncp_frame, send_ack_frame}
use libezsp.Driver as Driver
use libezsp.Driver.Feed.{Fed, fed, raised, hung}
use libezsp.Driver.Feed as Feed
use libezsp.BootloaderPrompt.{exit_to_ezsp_ncp, firmware_upgrade, select_mode_run}
use libezsp.BootloaderPrompt.{PromptCallback, select_mode_upgrade_fw}
use libezsp.BootloaderPrompt as Prompt
use libezsp.Dongle.{EzspDongle, handle_dongle_state, handle_ezsp_rx_message}
use libezsp.Dongle.{handle_bootloader_prompt, dongle_ready, dongle_remove, dongle_not_responding}
use libezsp.Dongle.{notify_observers_of_dongle_state, may_use_ezsp, known_ezsp_protocol_version_ge}
use libezsp.Dongle.{ezsp_ncp, bootloader_firmware_upgrade, bootloader_exit_to_ezsp_ncp}
use libezsp.Dongle.{send_next_msg, handle_response, set_mode, ezsp_launch_standalone_bootloader}

-- No answer to the reset: the adapter may be at the prompt of its bootloader.
unfoldable pub reset_failed : EzspDongle → EzspDongle
unfolding set_mode
reset_failed d =
    if d.first_startup
    then record (set_mode
        (if d.switch_to_firmware_upgrade_on_init_timeout
          then bootloader_firmware_upgrade
          else bootloader_exit_to_ezsp_ncp)
        d) { first_startup = false }
    else notify_observers_of_dongle_state (handle_dongle_state dongle_not_responding) d

unfoldable pub ash_cb_info : AshInfo → EzspDongle → Option EzspDongle
unfolding reset_failed
ash_cb_info ash_state_connected d =
    some (record (notify_observers_of_dongle_state (handle_dongle_state dongle_ready) d) {
      last_known_mode = ezsp_ncp;
    })
ash_cb_info ash_state_disconnected d =
    some (notify_observers_of_dongle_state (handle_dongle_state dongle_remove) d)
ash_cb_info ash_nack d = send_next_msg (record d { wait_rsp = false })
ash_cb_info ash_reset_failed d = some (reset_failed d)
ash_cb_info ash_ack d = some d

unfoldable pub ash_cb_infos : List AshInfo → EzspDongle → Option EzspDongle
ash_cb_infos [] d = some d
ash_cb_infos (i ∷ is) d = elim (ash_cb_info i d) [ none ↦ none | some d' ↦ ash_cb_infos is d' ]

abbrev pub with_result : Bool → Option EzspDongle → Option (EzspDongle × Bool)
with_result b none = none
with_result b (some d) = some (d, b)

-- The state, and whether the reset was sent.
unfoldable pub reset : EzspDongle → Option (EzspDongle × Bool)
unfolding ash_cb_infos
reset d =
    if not d.has_uart
    then some (record d { ezsp_seq_num = 0 }, false)
    else (let (ash', sent_ok, told) = send_reset_ncp_frame (Driver.enable d.ash) in
        with_result sent_ok (
          ash_cb_infos told
            (record d { ezsp_seq_num = 0; blp = Prompt.disable d.blp; ash = ash' })))

-- The timer of the link expires.
unfoldable pub ash_timeout : EzspDongle → Option EzspDongle
unfolding ash_cb_infos
ash_timeout d = ash_cb_infos (Driver.trigger d.ash) (record d { ash = Driver.stop_timer d.ash })

-- The two functions that setMode registers with the bootloader's driver.
unfoldable pub prompt_detected : PromptCallback → EzspDongle → Option EzspDongle
unfolding reset
prompt_detected exit_to_ezsp_ncp d =
    let told = notify_observers_of_dongle_state handle_bootloader_prompt d in
    elim (reset (record told {
      blp = Prompt.disable (select_mode_run told.blp).0;
      last_known_mode = ezsp_ncp;
      ash = Driver.enable told.ash;
    })) [ none ↦ none | some r ↦ some r.0 ]
prompt_detected firmware_upgrade d =
    let told = notify_observers_of_dongle_state handle_bootloader_prompt d in
    some (record told {
      blp = (select_mode_upgrade_fw told.blp).0;
      last_known_mode = bootloader_firmware_upgrade;
    })

-- The header of EZSPv8: the frame ID is the fourth byte and the fifth, which has to be 0.
unfoldable pub parse_v8 : List ℕ → Option (ℕ × List ℕ)
parse_v8 (seq_num ∷ lo ∷ hi ∷ id ∷ id_hi ∷ params) = if id_hi != 0 then none else some (id, params)
parse_v8 _ = none

-- The three bytes of the legacy header.
unfoldable pub parse_short : List ℕ → Option (ℕ × List ℕ)
parse_short (seq_num ∷ control ∷ id ∷ params) = some (id, params)
parse_short _ = none

-- A message of at least 4 bytes, from which the two bytes of an extended header are removed.
unfoldable pub parse_legacy : List ℕ → Option (ℕ × List ℕ)
unfolding parse_short
parse_legacy (seq_num ∷ control ∷ id ∷ next ∷ rest) =
    if id == 0xff
    then parse_short (seq_num ∷ control ∷ rest)
    else parse_short (seq_num ∷ control ∷ id ∷ next ∷ rest)
parse_legacy _ = none

-- The command and its parameters, or nothing where the message is refused.
unfoldable pub parse_ezsp : EzspAdapterVersion → List ℕ → Option (ℕ × List ℕ)
unfolding parse_v8 parse_legacy
parse_ezsp version message =
    if known_ezsp_protocol_version_ge version 8 then parse_v8 message else parse_legacy message

-- A response is acknowledged and taken off the queue, unless it ends the EZSP mode.
unfoldable pub answer_response : ℕ → EzspDongle → Option EzspDongle
answer_response cmd d =
    if cmd != ezsp_launch_standalone_bootloader
    then handle_response cmd (record d { ash = (send_ack_frame d.ash).0 })
    else some d

unfoldable pub deliver : ℕ → List ℕ → EzspDongle → Option EzspDongle
unfolding answer_response
deliver cmd params d = elim (answer_response cmd d) [
  | none ↦ none
  | some d' ↦ some (notify_observers_of_dongle_state (handle_ezsp_rx_message cmd params) d')
]

unfoldable pub handle_input_data : List ℕ → EzspDongle → Option EzspDongle
unfolding deliver parse_ezsp
handle_input_data data_in d =
    if not (may_use_ezsp d.last_known_mode)
    then some d
    else elim (parse_ezsp d.version data_in) [ none ↦ some d | some m ↦ deliver m.0 m.1 d ]

-- The observer of the link gets the payloads one after the other.
unfoldable pub handle_payloads : List (List ℕ) → EzspDongle → Option EzspDongle
unfolding handle_input_data
handle_payloads [] d = some d
handle_payloads (p ∷ ps) d = elim (handle_input_data p d) [
  | none ↦ none
  | some d' ↦ handle_payloads ps d'
]

abbrev pub get_ash : EzspDongle → AshDriver
get_ash d = d.ash

abbrev pub put_ash : AshDriver → EzspDongle → EzspDongle
put_ash a d = record d { ash = a }

-- Bytes arrive at the serial port while the link's driver reads them.
unfoldable pub receive_serial : List ℕ → EzspDongle → Fed EzspDongle
unfolding handle_payloads
receive_serial bytes d = elim (Feed.handle_input_data get_ash put_ash ash_cb_info bytes d) [
  | fed d' payloads ↦ elim (handle_payloads payloads d') [ none ↦ hung | some d'' ↦ fed d'' [] ]
  | raised d' ↦ raised d'
  | hung ↦ hung
]

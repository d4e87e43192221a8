-- ===== src/Host/Link.antt =====
-- The library over the link: CEzspDongle::ashCbInfo, AshDriver's passes over received bytes and its
-- timer, and the bootloader's console, with CLibEzspMain as the observer (src/ezsp/ezsp-dongle.cpp,
-- src/ezsp/ash-driver.cpp, src/ezsp/bootloader-prompt-driver.cpp, src/ezsp/lib-ezsp-main.cpp).
use libezsp.Common.{ℕ, suc, not, if◌then◌else◌, true, false, List, [], ◌∷◌, Option, none, some}
use libezsp.Ash.Codec.{AshInfo, ash_state_connected, ash_state_disconnected, ash_reset_failed}
use libezsp.Ash.Codec.{ash_ack, ash_nack}
use libezsp.Driver.{AshDriver}
use libezsp.Driver as Driver
use libezsp.Driver.Feed.{Fed, fed, raised, hung}
use libezsp.Driver.Feed as Feed
use libezsp.BootloaderPrompt.Console.{Parsed, parsed, broken_version, handle_console_data}
use libezsp.Dongle.{EzspDongle, DongleState, dongle_ready, ezsp_ncp, may_use_ezsp}
use libezsp.Dongle.{notify_observers_of_dongle_state}
use libezsp.Dongle as Dongle
use libezsp.Dongle.Receive.{parse_ezsp}
use libezsp.Dongle.Receive as Receive
use libezsp.Dongle.Console.{Served, receive_console}
use libezsp.Dongle.Console as Console
use libezsp.Commissioning.{Aes}
use libezsp.Effects.{Effect, Ran, ran, thrown}
use libezsp.LibMain.{LibMain}
use libezsp.LibMain.Init.{Draws, handle_dongle_state, handle_firmware_xmodem_xfr}
use libezsp.LibMain.Handlers.{handle_ezsp_rx_message}
use libezsp.Host.{Host, perform, notify_observers_of_ezsp_rx_message}

abbrev pub host_ash : Host → AshDriver
host_ash h = h.dongle.ash

abbrev pub put_host_ash : AshDriver → Host → Host
put_host_ash a h = record h { dongle = record (h.dongle) { ash = a } }

abbrev pub with_dongle : LibMain → Option EzspDongle → Option Host
with_dongle m none = none
with_dongle m (some d) = some (record { main = m; dongle = d })

abbrev pub now_ezsp : Option Host → Option Host
now_ezsp none = none
now_ezsp (some h) = some (record h { dongle = record (h.dongle) { last_known_mode = ezsp_ncp } })

-- The library is told of a dongle that is ready, and may send, before the mode is set; of the other
-- states it only takes note.
unfoldable pub host_ash_info : AshInfo → Host → Option Host
host_ash_info ash_state_connected h =
    let (m, es) = handle_dongle_state dongle_ready h.main in
    now_ezsp (
      perform (ran m es)
        (notify_observers_of_dongle_state (Dongle.handle_dongle_state dongle_ready) h.dongle))
host_ash_info ash_state_disconnected h =
    with_dongle h.main (Receive.ash_cb_info ash_state_disconnected h.dongle)
host_ash_info ash_nack h = with_dongle h.main (Receive.ash_cb_info ash_nack h.dongle)
host_ash_info ash_reset_failed h =
    with_dongle h.main (Receive.ash_cb_info ash_reset_failed h.dongle)
host_ash_info ash_ack h = with_dongle h.main (Receive.ash_cb_info ash_ack h.dongle)

unfoldable pub host_ash_infos : List AshInfo → Host → Option Host
unfolding host_ash_info
host_ash_infos [] h = some h
host_ash_infos (i ∷ is) h = elim (host_ash_info i h) [
  | none ↦ none
  | some h' ↦ host_ash_infos is h'
]

unfoldable pub host_ash_timeout : Host → Option Host
unfolding host_ash_infos
host_ash_timeout h =
    host_ash_infos (Driver.trigger (host_ash h)) (put_host_ash (Driver.stop_timer (host_ash h)) h)

-- An exception of an observer leaves the loop over the payloads.
abbrev pub message_ending : Ran LibMain → Option Host → Fed Host
message_ending r none = hung
message_ending (ran m es) (some h) = fed h []
message_ending (thrown m es) (some h) = raised h

unfoldable pub host_payload : Aes → Draws → List ℕ → Host → Fed Host
host_payload aes draws data_in h =
    if not (may_use_ezsp h.dongle.last_known_mode)
    then fed h []
    else elim (parse_ezsp h.dongle.version data_in) [
      | none ↦ fed h []
      | some m ↦
          message_ending (handle_ezsp_rx_message aes draws m.0 m.1 h.main)
            (notify_observers_of_ezsp_rx_message aes draws m.0 m.1 h)
    ]

-- What is drawn is numbered by the payloads of the pass.
unfoldable pub host_payloads : Aes → (ℕ → Draws) → ℕ → List (List ℕ) → Host → Fed Host
unfolding host_payload
host_payloads aes draws n [] h = fed h []
host_payloads aes draws n (p ∷ ps) h = elim (host_payload aes (draws n) p h) [
  | fed h' rest ↦ host_payloads aes draws (suc n) ps h'
  | raised h' ↦ raised h'
  | hung ↦ hung
]

unfoldable pub host_serial : Aes → (ℕ → Draws) → List ℕ → Host → Fed Host
unfolding host_payloads
host_serial aes draws bytes h =
    elim (Feed.handle_input_data host_ash put_host_ash host_ash_info bytes h) [
      | fed h' payloads ↦ host_payloads aes draws 0 payloads h'
      | raised h' ↦ raised h'
      | hung ↦ hung
    ]

-- The library is told of a transfer that can start.
abbrev pub transfer_told : Parsed → LibMain → LibMain × List Effect
transfer_told broken_version m = (m, [])
transfer_told (parsed b true prompted last_nul) m = handle_firmware_xmodem_xfr m
transfer_told (parsed b false prompted last_nul) m = (m, [])

-- How an event of the host ends: with a state, in a frame that is never forged, or with a version
-- string whose end lies before its beginning.
pub data HostRun : Type 0 where
  going : Host → HostRun
  host_hung host_broken : HostRun

abbrev pub host_run : Option Host → HostRun
host_run none = host_hung
host_run (some h) = going h

-- An exception ends the pass, and the state stays as it is then.
abbrev pub host_fed : Fed Host → HostRun
host_fed (fed h ps) = going h
host_fed (raised h) = going h
host_fed hung = host_hung

unfoldable pub host_console : List ℕ → Host → HostRun
unfolding perform
host_console data_in h =
    let (m, es) = transfer_told (handle_console_data data_in h.dongle.blp) h.main in
    elim (receive_console data_in h.dongle) [
      | Console.served d ↦ host_run (perform (ran m es) d)
      | Console.hung ↦ host_hung
      | Console.broken ↦ host_broken
    ]

-- ===== src/Host/Safe.antt =====
-- That the library over the link (src/ezsp/ezsp-dongle.cpp with src/ezsp/lib-ezsp-main.cpp) keeps its
-- invariant and comes to an end.
use libezsp.Common.{ℕ, suc, ◌≤◌, refl, arith, true, false, List, [], ◌∷◌, All, All-append, length}
use libezsp.Common.{Option, none, some, IsU8}
use libezsp.Ash.Codec.{AshInfo, ash_state_connected, ash_state_disconnected, ash_reset_failed}
use libezsp.Ash.Codec.{ash_ack, ash_nack}
use libezsp.Driver as Driver
use libezsp.Driver.Feed.{Fed, fed, raised, hung}
use libezsp.Driver.Safe.{FedBy, KeptBy, Holder, handle_input_data-FedBy}
use libezsp.BootloaderPrompt.Console.{Parsed, parsed, broken_version, handle_console_data}
use libezsp.Commissioning.{Aes}
use libezsp.Effects.{Effect, sends, Ran, ran, thrown}
use libezsp.Dongle.{EzspDongle, DongleState, dongle_ready, dongle_remove, dongle_not_responding}
use libezsp.Dongle.{dongle_version_retrieved, notify_observers_of_dongle_state}
use libezsp.Dongle as Dongle
use libezsp.Dongle.Receive.{parse_ezsp}
use libezsp.Dongle.Receive as Receive
use libezsp.Dongle.Well.{IsKept, put_ash-IsWell}
use libezsp.Dongle.Calls.{same_core-IsWell, ash_cb_info-IsWell}
use libezsp.BootloaderPrompt.Broken.{HasEmptyVersion}
use libezsp.Dongle.Console.{Served, receive_console, IsServed, receive_console-IsServed}
use libezsp.Dongle.Console as Console
use libezsp.LibMain.{LibMain, set_state, st_getting_ezsp_version, st_in_xmodem_xfr}
use libezsp.LibMain.Init.{Draws, handle_dongle_state, dongle_init, handle_firmware_xmodem_xfr}
use libezsp.LibMain.Handlers.{handle_ezsp_rx_message}
use libezsp.LibMain.Steps.{IsShort, IsSound, set_state-Step, Step-IsSound}
use libezsp.Host.{Host, perform, IsWellHost, IsKeptHost, performed-IsWell, next-IsWell}
use libezsp.Host.{notify_observers_of_ezsp_rx_message, notify_observers_of_ezsp_rx_message-IsWell}
use libezsp.Host.Link.{host_ash, put_host_ash, with_dongle, now_ezsp, host_ash_info, host_ash_infos}
use libezsp.Host.Link.{host_ash_timeout, message_ending, host_payload, host_payloads, host_serial}
use libezsp.Host.Link.{transfer_told, HostRun, going, host_hung, host_broken, host_run, host_fed}
use libezsp.Host.Link.{host_console}

abbrev IsQuiet : LibMain × List Effect → Type 0
IsQuiet (m, es) = IsSound m × All IsShort es

dongle_init-IsQuiet : (v : ℕ) (m : LibMain) → IsSound m → IsQuiet (dongle_init v m)
unfolding dongle_init
dongle_init-IsQuiet v m i =
    let s = set_state-Step st_getting_ezsp_version m i in
    let (m', es) = set_state st_getting_ezsp_version m in
    (
      Step-IsSound m m' es s,
      All-append IsShort es (sends 0 (v ∷ []) ∷ []) s.short (omega arith, tt),
    )

state_changed-IsQuiet :
    (state : DongleState) (m : LibMain) → IsSound m → IsQuiet (handle_dongle_state state m)
unfolding handle_dongle_state
state_changed-IsQuiet dongle_ready m i =
    ground (arith, dongle_init-IsQuiet m.exp_ezsp_min_version m i, i)
state_changed-IsQuiet dongle_remove m i = (i, tt)
state_changed-IsQuiet dongle_not_responding m i = (i, tt)
state_changed-IsQuiet dongle_version_retrieved m i = (i, tt)

with_dongle-IsWell :
    (m : LibMain) (o : Option EzspDongle) → IsSound m → IsKept o → IsKeptHost (with_dongle m o)
with_dongle-IsWell m none i k = k
with_dongle-IsWell m (some d) i k = record { main_sound = i; dongle_well = k }

now_ezsp-IsWell : (o : Option Host) → IsKeptHost o → IsKeptHost (now_ezsp o)
now_ezsp-IsWell none k = k
now_ezsp-IsWell (some h) w = record {
  main_sound = w.main_sound;
  dongle_well = same_core-IsWell h.dongle _ refl refl refl refl w.dongle_well;
}

on_dongle-IsWell :
    (i : AshInfo) (h : Host)
    → IsWellHost h
    → IsKeptHost (with_dongle h.main (Receive.ash_cb_info i h.dongle))
on_dongle-IsWell i h w =
    with_dongle-IsWell h.main (Receive.ash_cb_info i h.dongle) w.main_sound
      (ash_cb_info-IsWell i h.dongle w.dongle_well)

host_ash_info-IsWell : (i : AshInfo) (h : Host) → IsWellHost h → IsKeptHost (host_ash_info i h)
unfolding host_ash_info
host_ash_info-IsWell ash_state_connected h w =
    let (m, es) = handle_dongle_state dongle_ready h.main in
    let (i, short) = state_changed-IsQuiet dongle_ready h.main w.main_sound in
    let told =
      notify_observers_of_dongle_state (Dongle.handle_dongle_state dongle_ready) h.dongle in
    now_ezsp-IsWell (perform (ran m es) told) (
      performed-IsWell m es told i short
        (same_core-IsWell h.dongle told refl refl refl refl w.dongle_well))
host_ash_info-IsWell ash_state_disconnected h w = on_dongle-IsWell ash_state_disconnected h w
host_ash_info-IsWell ash_nack h w = on_dongle-IsWell ash_nack h w
host_ash_info-IsWell ash_reset_failed h w = on_dongle-IsWell ash_reset_failed h w
host_ash_info-IsWell ash_ack h w = on_dongle-IsWell ash_ack h w

host_ash_infos-IsWell :
    (is : List AshInfo) (h : Host) → IsWellHost h → IsKeptHost (host_ash_infos is h)
unfolding host_ash_infos
host_ash_infos-IsWell [] h w = w
host_ash_infos-IsWell (i ∷ is) h w =
    next-IsWell (host_ash_info i h) (host_ash_infos is) (host_ash_info-IsWell i h w)
      (λ h' w'. host_ash_infos-IsWell is h' w')

stopped-IsWell :
    (h : Host) → IsWellHost h → IsWellHost (put_host_ash (Driver.stop_timer (host_ash h)) h)
stopped-IsWell h w = record {
  main_sound = w.main_sound;
  dongle_well = same_core-IsWell h.dongle _ refl refl refl refl w.dongle_well;
}

pub host_ash_timeout-IsWell : (h : Host) → IsWellHost h → IsKeptHost (host_ash_timeout h)
unfolding host_ash_timeout
host_ash_timeout-IsWell h w =
    host_ash_infos-IsWell (Driver.trigger (host_ash h))
      (put_host_ash (Driver.stop_timer (host_ash h)) h) (stopped-IsWell h w)

kept : (o : Option Host) → IsKeptHost o → KeptBy IsWellHost o
kept none k = k
kept (some h) k = k

holder : Holder IsWellHost host_ash put_host_ash host_ash_info
holder = record {
  valid = λ h w. w.dongle_well.codec_valid;
  codec_kept = λ c h v w. record {
    main_sound = w.main_sound;
    dongle_well = put_ash-IsWell (record (h.dongle.ash) { ash_codec = c }) h.dongle v w.dongle_well;
  };
  timer_kept = stopped-IsWell;
  info_kept = λ i h w. kept (host_ash_info i h) (host_ash_info-IsWell i h w);
}

message_ending-FedBy :
    (r : Ran LibMain) (o : Option Host) → IsKeptHost o → FedBy IsWellHost (message_ending r o)
message_ending-FedBy r none k = k
message_ending-FedBy (ran m es) (some h) k = k
message_ending-FedBy (thrown m es) (some h) k = k

parsed-FedBy :
    (o : Option (ℕ × List ℕ)) (aes : Aes) (draws : Draws) (h : Host)
    → length draws.network_key ≤ 16
    → IsWellHost h
    → FedBy IsWellHost (elim o [
      | none ↦ fed h []
      | some m ↦
          message_ending
            (handle_ezsp_rx_message aes draws m.0 m.1 h.main)
            (notify_observers_of_ezsp_rx_message aes draws m.0 m.1 h)
    ])
parsed-FedBy none aes draws h k w = w
parsed-FedBy (some m) aes draws h k w =
    message_ending-FedBy (handle_ezsp_rx_message aes draws m.0 m.1 h.main) _
      (notify_observers_of_ezsp_rx_message-IsWell aes draws m.0 m.1 h k w)

host_payload-FedBy :
    (aes : Aes) (draws : Draws) (data_in : List ℕ) (h : Host)
    → length draws.network_key ≤ 16
    → IsWellHost h
    → FedBy IsWellHost (host_payload aes draws data_in h)
unfolding host_payload
host_payload-FedBy aes draws data_in h k w =
    ground (arith, w, parsed-FedBy (parse_ezsp h.dongle.version data_in) aes draws h k w)

go_on-FedBy :
    (r : Fed Host) (f : List (List ℕ) → Host → Fed Host)
    → FedBy IsWellHost r
    → ((ps : List (List ℕ)) (h : Host) → IsWellHost h → FedBy IsWellHost (f ps h))
    → FedBy IsWellHost (elim r [ fed h ps ↦ f ps h | raised h ↦ raised h | hung ↦ hung ])
go_on-FedBy (fed h ps) f w g = g ps h w
go_on-FedBy (raised h) f w g = w
go_on-FedBy hung f w g = w

host_payloads-FedBy :
    (aes : Aes) (draws : ℕ → Draws) (n : ℕ) (ps : List (List ℕ)) (h : Host)
    → ((n : ℕ) → length (draws n).network_key ≤ 16)
    → IsWellHost h
    → FedBy IsWellHost (host_payloads aes draws n ps h)
unfolding host_payloads
host_payloads-FedBy aes draws n [] h k w = w
host_payloads-FedBy aes draws n (p ∷ ps) h k w =
    go_on-FedBy (host_payload aes (draws n) p h) (λ rest. host_payloads aes draws (suc n) ps)
      (host_payload-FedBy aes (draws n) p h (k n) w)
      (λ rest h' w'. host_payloads-FedBy aes draws (suc n) ps h' k w')

pub host_serial-FedBy :
    (aes : Aes) (draws : ℕ → Draws) (bytes : List ℕ) (h : Host)
    → All IsU8 bytes
    → ((n : ℕ) → length (draws n).network_key ≤ 16)
    → IsWellHost h
    → FedBy IsWellHost (host_serial aes draws bytes h)
unfolding host_serial
host_serial-FedBy aes draws bytes h hb k w =
    go_on-FedBy _ (host_payloads aes draws 0)
      (handle_input_data-FedBy IsWellHost host_ash put_host_ash host_ash_info holder bytes h hb w)
      (λ ps h' w'. host_payloads-FedBy aes draws 0 ps h' k w')

-- An event is never hung; where it breaks, the reason holds.
abbrev pub IsSafeHost : Type 0 → HostRun → Type 0
IsSafeHost E (going h) = IsWellHost h
IsSafeHost E host_hung = ⊥
IsSafeHost E host_broken = E

pub run-IsSafeHost : (E : Type 0) (o : Option Host) → IsKeptHost o → IsSafeHost E (host_run o)
run-IsSafeHost E none k = k
run-IsSafeHost E (some h) k = k

pub fed-IsSafeHost : (E : Type 0) (r : Fed Host) → FedBy IsWellHost r → IsSafeHost E (host_fed r)
fed-IsSafeHost E (fed h ps) k = k
fed-IsSafeHost E (raised h) k = k
fed-IsSafeHost E hung k = k

transfer-IsQuiet : (p : Parsed) (m : LibMain) → IsSound m → IsQuiet (transfer_told p m)
unfolding handle_firmware_xmodem_xfr
transfer-IsQuiet broken_version m i = (i, tt)
transfer-IsQuiet (parsed b false prompted last_nul) m i = (i, tt)
transfer-IsQuiet (parsed b true prompted last_nul) m i =
    let (m', es) = set_state st_in_xmodem_xfr m in
    let s = set_state-Step st_in_xmodem_xfr m i in (Step-IsSound m m' es s, s.short)

served-IsSafeHost :
    (E : Type 0) (r : LibMain × List Effect) (s : Served)
    → IsQuiet r
    → IsServed E s
    → IsSafeHost E (elim s [
      | Console.served d ↦ host_run (perform (ran r.0 r.1) d)
      | Console.hung ↦ host_hung
      | Console.broken ↦ host_broken
    ])
served-IsSafeHost E (m, es) (Console.served d) (i, short) w =
    run-IsSafeHost E (perform (ran m es) d) (performed-IsWell m es d i short w)
served-IsSafeHost E (m, es) Console.hung q w = w
served-IsSafeHost E (m, es) Console.broken q w = w

pub host_console-IsSafeHost :
    (bytes : List ℕ) (h : Host)
    → IsWellHost h
    → IsSafeHost (HasEmptyVersion bytes h.dongle.blp) (host_console bytes h)
unfolding host_console
host_console-IsSafeHost bytes h w =
    served-IsSafeHost (HasEmptyVersion bytes h.dongle.blp) _ (receive_console bytes h.dongle)
      (transfer-IsQuiet (handle_console_data bytes h.dongle.blp) h.main w.main_sound)
      (receive_console-IsServed bytes h.dongle w.dongle_well)

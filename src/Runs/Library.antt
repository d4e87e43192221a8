-- ===== src/Runs/Library.antt =====
-- CLibEzspMain and CGpSink (src/ezsp/lib-ezsp-main.cpp, src/ezsp/zigbee-tools/green-power-sink.cpp)
-- on short runs.
use libezsp.Common.{ℕ, ◌+◌, ◌≤◌, ◌≡◌, ◌≢◌, refl, arith, u8, true, false, List, [], ◌∷◌}
use libezsp.Common.{negsuc, ◌++◌}
use libezsp.Commissioning.{Aes}
use libezsp.GpFrame.{GpFrame, new_gp_frame}
use libezsp.Dongle.{ezsp_version, dongle_ready}
use libezsp.Effects.{sink_ready, energy_scan_told, ran}
use libezsp.EzspEnum.{ember_success, ezsp_d_gp_sent_handler}
use libezsp.Sink.{GpSink, new_gp_sink, remove_gpds, gp_sink_table_lookup}
use libezsp.Sink.Incoming.{switch_channel, handle_d_gp_sent, send_channel, is_channel_attribute}
use libezsp.Sink.Incoming as Incoming
use libezsp.Sink.Fits.{IsFitRan, KeysFit}
use libezsp.Sink.FitIncoming.{handle_ezsp_rx_message-IsFit}
use libezsp.Sink.Runs.{Removal, answer_devices, all_removal_commands}
use libezsp.Sink.Runs.{remove_gpds-answer_devices}
use libezsp.Sink.Channel.{switch_channel-handle_d_gp_sent}
use libezsp.LibMain.{LibMain, new_lib_ezsp_main, st_ready, st_wait_dongle_ready}
use libezsp.LibMain.{st_stack_init, st_getting_ezsp_version}
use libezsp.LibMain.Init.{Draws, handle_dongle_state}
use libezsp.LibMain.Requests.{clear_all_gp_devices, remove_gp_devices, add_gp_devices}
use libezsp.LibMain.Requests.{is_scanning}
use libezsp.LibMain.Guards.{refusal, stuck}
use libezsp.LibMain.Guards.{empty_request_stuck}
use libezsp.LibMain.Steps.{versions}
use libezsp.LibMain.Negotiation.{Received, handle_messages, new-IsSound, negotiation_ends}
use libezsp.LibMain.Startup.{startup_answers, IsStarted, startup_reaches_ready}
use libezsp.LibMain.Startup.{startup_commands}
use libezsp.LibMain.Answers.{received}
use libezsp.LibMain.Commands.{commands, answered}
use libezsp.LibMain.Scans.{scanned, find, energy_scan_results}
use libezsp.LibMain.Scans.{told_ready}
use libezsp.Api.{scan_energy}
use libezsp.Host.{Host}
use libezsp.Host.Safe.{IsSafeHost}
use libezsp.Host.Events.{HostEvent, serial_received, link_timed_out, console_timed_out}
use libezsp.Host.Events.{
  HistoryBreaks, console_received, request_made, host_events, host_events-IsSafe,
}
use libezsp.Runs.Adapter.{dongle, dongle-IsWell}

abbrev no_cipher : Aes
no_cipher key block = block

abbrev draws : Draws
draws = record { network_key = []; pan_id = 0x1234 }

-- The library before its start, and in READY with a sink that is ready.
abbrev library : LibMain
library = new_lib_ezsp_main 0

abbrev idle_sink : GpSink
idle_sink = record new_gp_sink { sink_state = sink_ready }

abbrev ready_library : LibMain
ready_library = record library { lib_state = st_ready; gp_sink = idle_sink }

abbrev version_messages : List Received
version_messages =
    received draws ezsp_version (7 ∷ 2 ∷ 0 ∷ 0 ∷ [])
    ∷ received draws ezsp_version (8 ∷ 2 ∷ 0 ∷ 0 ∷ [])
    ∷ []

abbrev host : Host
host = record { main = library; dongle = dongle }

-- Bytes for the link, a request of the application, the link's timer, and bytes and the timer of the
-- console.
abbrev history : List HostEvent
history =
    serial_received (λ n. draws) (0x25 ∷ 0x7e ∷ 0x18 ∷ 0x7e ∷ [])
    ∷ request_made (scan_energy true 3 0)
    ∷ link_timed_out
    ∷ console_received (0x0a ∷ 0x43 ∷ [])
    ∷ console_timed_out
    ∷ []

host_events-IsSafe_example :
    IsSafeHost (HistoryBreaks no_cipher history host) (host_events no_cipher history host)
host_events-IsSafe_example =
    host_events-IsSafe no_cipher history host
      ((ground arith, λ n. omega arith), (tt, (tt, (tt, (tt, tt)))))
      (record { main_sound = new-IsSound 0; dongle_well = dongle-IsWell })

negotiation_ends_example :
    let (m', es) = handle_messages no_cipher version_messages library in
    (versions es + library.exp_ezsp_min_version ≤ library.exp_ezsp_max_version)
    × (library.exp_ezsp_min_version ≤ m'.exp_ezsp_min_version)
    × (m'.exp_ezsp_min_version ≤ m'.exp_ezsp_max_version)
    × (m'.exp_ezsp_max_version ≡ library.exp_ezsp_max_version)
negotiation_ends_example =
    negotiation_ends no_cipher version_messages library (omega arith, (omega arith, tt))
      (new-IsSound 0)

abbrev waiting_library : LibMain
waiting_library = record library { lib_state = st_wait_dongle_ready }

startup_reaches_ready_example :
    let (asked, es) = handle_dongle_state dongle_ready waiting_library in
    let (started, cs) =
      answered no_cipher (startup_answers draws 8 0 0x67 [] waiting_library) asked in
    (asked.lib_state ≡ st_getting_ezsp_version)
    × (commands es ≡ (ezsp_version, 6 ∷ []) ∷ [])
    × IsStarted started
    × (cs ≡ startup_commands 8 waiting_library)
unfolding new_lib_ezsp_main
startup_reaches_ready_example =
    startup_reaches_ready no_cipher draws 8 0 0x67 [] waiting_library refl refl (omega arith)
      (omega arith) refl

abbrev leaving_library : LibMain
leaving_library = record library { lib_state = st_stack_init; reset_dot154_channel_at_init = 15 }

-- The application listens to the state.
abbrev listened_library : LibMain
listened_library = record ready_library { has_state_callback = true }

energy_scan_results_example :
    let (ended, es) =
      scanned 3 0x07fff800 ((15, 200) ∷ (11, 190) ∷ (15, 210) ∷ []) listened_library in
    (ended.lib_state ≡ st_ready)
    × (is_scanning ended ≡ false)
    × (ended.has_energy_scan_callback ≡ false)
    × (es
        ≡ told_ready listened_library ++ (energy_scan_told ended.last_channel_to_energy_scan ∷ []))
    × ((c : ℕ)
        → find c ended.last_channel_to_energy_scan
          ≡ find c ((15, negsuc 55) ∷ (11, negsuc 65) ∷ (15, negsuc 45) ∷ []))
unfolding new_lib_ezsp_main
energy_scan_results_example =
    energy_scan_results listened_library 3 0x07fff800 ((15, 200) ∷ (11, 190) ∷ (15, 210) ∷ []) refl

-- READY, with a sink that has not been started.
abbrev unready_library : LibMain
unready_library = record library { lib_state = st_ready }

empty_request_stuck_example :
    (add_gp_devices [] ready_library ≡ stuck ready_library)
    × (remove_gp_devices [] ready_library ≡ stuck ready_library)
    × (let m' = (stuck ready_library).0 in
        (m'.gp_sink ≡ ready_library.gp_sink)
        × (add_gp_devices [] m' ≡ refusal m')
        × (remove_gp_devices (5 ∷ []) m' ≡ refusal m')
        × (clear_all_gp_devices m' ≡ refusal m'))
empty_request_stuck_example = empty_request_stuck ready_library [] (5 ∷ []) refl

abbrev first_removal : Removal
first_removal = record { source_id = 0x01500001; sink_index = 3; proxy_index = 0xff }

abbrev second_removal : Removal
second_removal = record { source_id = 0x01500002; sink_index = 0xff; proxy_index = 1 }

remove_gpds-answer_devices_example :
    let (asked, es, accepted) = remove_gpds (0x01500001 ∷ 0x01500002 ∷ []) idle_sink in
    (accepted ≡ true)
    × (es ≡ gp_sink_table_lookup 0x01500001 ∷ [])
    × (answer_devices (first_removal ∷ second_removal ∷ []) asked ≡ (
      record idle_sink { gpds_to_remove = [] },
      all_removal_commands (first_removal ∷ second_removal ∷ []),
    ))
unfolding new_gp_sink
remove_gpds-answer_devices_example =
    remove_gpds-answer_devices first_removal (second_removal ∷ []) idle_sink refl refl

-- A report of a manufacturer's attribute that asks for the channel.
abbrev channel_report : GpFrame
channel_report = record new_gp_frame {
  source_id = 0x01500001;
  command_id = 0xa1;
  payload = 0x21 ∷ 0x10 ∷ 0x00 ∷ 0x00 ∷ 0x00 ∷ 0x50 ∷ 0x20 ∷ 0x01 ∷ [];
}

switch_channel-handle_d_gp_sent_example :
    let number = u8 (idle_sink.gpd_sent_last_handler_nb + 1) in
    let (waiting, es) = switch_channel channel_report idle_sink in
    (es ≡ send_channel 0x01500001 1000 number idle_sink ∷ [])
    × (handle_d_gp_sent (ember_success ∷ number ∷ []) waiting ≡ ran idle_sink [])
    × (9 ≢ number → handle_d_gp_sent (1 ∷ 9 ∷ []) waiting ≡ ran waiting [])
    × (1 ≢ ember_success → handle_d_gp_sent (1 ∷ 9 ∷ []) waiting ≡ ran waiting [])
unfolding new_gp_sink is_channel_attribute
switch_channel-handle_d_gp_sent_example =
    switch_channel-handle_d_gp_sent channel_report idle_sink 1 9 [] refl (ground arith) refl
      (ground arith) (omega arith)

abbrev steering_sink : GpSink
steering_sink = record idle_sink { sent_channel_switch_source_id = 0x01500002 }

idle_sink-KeysFit : KeysFit idle_sink
unfolding new_gp_sink
idle_sink-KeysFit = record { entry_key = omega arith; register_keys = tt }

handle_ezsp_rx_message-IsFit_example :
    IsFitRan
      (Incoming.handle_ezsp_rx_message no_cipher ezsp_d_gp_sent_handler (0 ∷ 7 ∷ []) idle_sink)
handle_ezsp_rx_message-IsFit_example =
    handle_ezsp_rx_message-IsFit no_cipher ezsp_d_gp_sent_handler (0 ∷ 7 ∷ []) idle_sink
      idle_sink-KeysFit

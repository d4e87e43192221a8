-- ===== src/LibMain/Handlers.antt =====
-- CLibEzspMain::handleEzspRxMessage (src/ezsp/lib-ezsp-main.cpp), and what the four observers of the
-- dongle do with a message: the library, CZigbeeMessaging, CZigbeeNetworking and CGpSink, in the order
-- of their addresses in the library's object.
use libezsp.Common.{int8, ℕ, ◌==◌, if◌then◌else◌, not, ◌&&◌, ltb, leb, length}
use libezsp.Common.{false, List, [], ◌∷◌, ◌++◌, none, some}
use libezsp.Dongle.{ezsp_version, ezsp_launch_standalone_bootloader}
use libezsp.Commissioning.{Aes}
use libezsp.Structs.{byte}
use libezsp.Structs.NetworkParameters.{read_network_parameters_response}
use libezsp.Structs.Adapter.{read_key_struct, read_zigbee_network}
use libezsp.Structs.Adapter.{ScanResult}
use libezsp.Effects.{Effect, key_told, energy_scan_told, active_scan_told, and_then}
use libezsp.Effects.{Ran, ran, thrown, returned}
use libezsp.EzspEnum.{ezsp_stack_status_handler, ezsp_get_network_parameters, ezsp_get_key}
use libezsp.EzspEnum.{ezsp_get_xncp_info, ezsp_network_state, ezsp_leave_network, ezsp_start_scan}
use libezsp.EzspEnum.{ezsp_energy_scan_result_handler, ezsp_network_found_handler, ember_success}
use libezsp.EzspEnum.{ezsp_scan_complete_handler, ezsp_message_sent_handler}
use libezsp.Networking.{ZigbeeNetworking}
use libezsp.Networking as Networking
use libezsp.Sink.{GpSink}
use libezsp.Sink.Incoming as Incoming
use libezsp.LibMain.{LibMain, is_in, set_state, absorb, st_stack_init, st_ready, st_scanning}
use libezsp.LibMain.Init.{Draws, handle_version, handle_xncp_info, handle_network_state}
use libezsp.LibMain.Init.{handle_launch_bootloader, handle_stack_status}

-- The status is taken off the front; a message that is too short throws.
unfoldable pub handle_get_key : List ℕ → LibMain → Ran LibMain
unfolding read_key_struct
handle_get_key [] m = thrown m []
handle_get_key (status ∷ rest) m = elim (read_key_struct rest) [
  | none ↦ thrown m []
  | some k ↦
      if m.has_network_key_callback
      then ran (record m { has_network_key_callback = false }) (key_told status k.key ∷ [])
      else ran m []
]

unfoldable pub handle_start_scan : List ℕ → LibMain → Ran LibMain
handle_start_scan [] m = thrown m []
handle_start_scan (status ∷ rest) m =
    ran (record m { scan_in_progress = ember_success == status }) []

-- std::map::emplace: a key that is there keeps its value.
unfoldable pub emplace {ℓ} : {A : Type ℓ} → ℕ → A → List (ℕ × A) → List (ℕ × A)
emplace k v [] = (k, v) ∷ []
emplace k v ((k', v') ∷ rest) =
    let after = emplace k v rest in
    if ltb k k'
    then (k, v) ∷ (k', v') ∷ rest
    else if k == k'
    then (k', v') ∷ rest
    else (k', v') ∷ after

unfoldable pub handle_energy_scan_result : List ℕ → LibMain → Ran LibMain
unfolding emplace
handle_energy_scan_result (channel ∷ rssi ∷ rest) m =
    ran
      (record m {
        last_channel_to_energy_scan = emplace channel (int8 rssi) m.last_channel_to_energy_scan;
      })
      []
handle_energy_scan_result _ m = thrown m []

-- `map[k].push_back(v)`.
unfoldable pub push_at {ℓ} : {A : Type ℓ} → ℕ → A → List (ℕ × List A) → List (ℕ × List A)
push_at k v [] = (k, v ∷ []) ∷ []
push_at k v ((k', vs) ∷ rest) =
    let after = push_at k v rest in
    if ltb k k'
    then (k, v ∷ []) ∷ (k', vs) ∷ rest
    else if k == k'
    then (k', vs ++ (v ∷ [])) ∷ rest
    else (k', vs) ∷ after

unfoldable pub network_found : ScanResult → LibMain → LibMain
unfolding push_at
network_found r m = record m {
  last_channel_to_zigbee_network_scan =
      push_at r.network.channel r m.last_channel_to_zigbee_network_scan;
}

unfoldable pub handle_network_found : List ℕ → LibMain → Ran LibMain
unfolding read_zigbee_network network_found byte
handle_network_found i_msg_receive m = elim (read_zigbee_network i_msg_receive) [
  | none ↦ thrown m []
  | some n ↦
      if leb 16 (length i_msg_receive)
      then ran
          (network_found
            (record {
              network = n;
              last_hop_lqi = byte i_msg_receive 14;
              last_hop_rssi = int8 (byte i_msg_receive 15);
            })
            m)
          []
      else thrown m []
]

-- The callback that is set gets the results, once.
unfoldable pub tell_energy_scan : LibMain → LibMain × List Effect
tell_energy_scan m =
    if m.has_energy_scan_callback
    then (
      record m { has_energy_scan_callback = false },
      energy_scan_told m.last_channel_to_energy_scan ∷ [],
    )
    else (m, [])

unfoldable pub tell_active_scan : LibMain → LibMain × List Effect
tell_active_scan m =
    if m.has_active_scan_callback
    then (
      record m { has_active_scan_callback = false },
      active_scan_told m.last_channel_to_zigbee_network_scan ∷ [],
    )
    else (m, [])

unfoldable pub scan_complete : LibMain → LibMain × List Effect
unfolding set_state tell_energy_scan tell_active_scan
scan_complete m =
    let stopped = record m { scan_in_progress = false } in
    if is_in st_scanning m
    then and_then (and_then (set_state st_ready stopped) tell_energy_scan) tell_active_scan
    else (stopped, [])

-- EZSP_GET_NETWORK_PARAMETERS is only printed.
unfoldable pub print_network_parameters : List ℕ → LibMain → Ran LibMain
unfolding read_network_parameters_response
print_network_parameters i_msg_receive m = elim (read_network_parameters_response i_msg_receive) [
  | none ↦ thrown m []
  | some r ↦ ran m []
]

unfoldable pub handle_main_message : Draws → ℕ → List ℕ → LibMain → Ran LibMain
unfolding scan_complete print_network_parameters set_state
handle_main_message draws i_cmd i_msg_receive m =
    if i_cmd == ezsp_stack_status_handler
    then handle_stack_status i_msg_receive m
    else if i_cmd == ezsp_get_network_parameters
    then print_network_parameters i_msg_receive m
    else if i_cmd == ezsp_get_key
    then handle_get_key i_msg_receive m
    else if i_cmd == ezsp_version
    then returned (handle_version i_msg_receive m)
    else if i_cmd == ezsp_get_xncp_info
    then returned (handle_xncp_info i_msg_receive m)
    else if i_cmd == ezsp_network_state
    then handle_network_state draws.network_key i_msg_receive m
    else if i_cmd == ezsp_leave_network
    then returned (set_state st_stack_init m)
    else if i_cmd == ezsp_launch_standalone_bootloader
    then returned (handle_launch_bootloader m)
    else if i_cmd == ezsp_start_scan
    then handle_start_scan i_msg_receive m
    else if i_cmd == ezsp_energy_scan_result_handler
    then handle_energy_scan_result i_msg_receive m
    else if i_cmd == ezsp_network_found_handler
    then handle_network_found i_msg_receive m
    else if i_cmd == ezsp_scan_complete_handler
    then returned (scan_complete m)
    else ran m []

-- CZigbeeMessaging::handleEzspRxMessage, which prints the status of a message that was sent.
unfoldable pub handle_messaging : ℕ → List ℕ → LibMain → Ran LibMain
handle_messaging i_cmd i_msg_receive m =
    if (i_cmd == ezsp_message_sent_handler) && not (leb 17 (length i_msg_receive))
    then thrown m []
    else ran m []

abbrev pub networking_ran : Ran ZigbeeNetworking → LibMain → Ran LibMain
networking_ran (ran n es) m = ran (record m { zb_nwk = n }) es
networking_ran (thrown n es) m = thrown (record m { zb_nwk = n }) es

unfoldable pub handle_networking : Draws → ℕ → List ℕ → LibMain → Ran LibMain
handle_networking draws i_cmd i_msg_receive m =
    networking_ran (Networking.handle_ezsp_rx_message draws.pan_id i_cmd i_msg_receive m.zb_nwk) m

abbrev pub sink_ran : Ran GpSink → LibMain → Ran LibMain
sink_ran (ran s es) m = returned (absorb es (record m { gp_sink = s }))
sink_ran (thrown s es) m = let (m', es') = absorb es (record m { gp_sink = s }) in thrown m' es'

unfoldable pub handle_sink : Aes → ℕ → List ℕ → LibMain → Ran LibMain
unfolding absorb
handle_sink aes i_cmd i_msg_receive m =
    sink_ran (Incoming.handle_ezsp_rx_message aes i_cmd i_msg_receive m.gp_sink) m

-- An observer that throws is the last one that is called.
abbrev pub then_run : Ran LibMain → (LibMain → Ran LibMain) → Ran LibMain
then_run (ran m es) f = Incoming.after es (f m)
then_run (thrown m es) f = thrown m es

-- notifyObserversOfEzspRxMessage.
unfoldable pub handle_ezsp_rx_message : Aes → Draws → ℕ → List ℕ → LibMain → Ran LibMain
unfolding handle_main_message handle_messaging handle_networking handle_sink
handle_ezsp_rx_message aes draws i_cmd i_msg_receive m =
    then_run
      (then_run
        (then_run (handle_main_message draws i_cmd i_msg_receive m)
          (handle_messaging i_cmd i_msg_receive))
        (handle_networking draws i_cmd i_msg_receive))
      (handle_sink aes i_cmd i_msg_receive)

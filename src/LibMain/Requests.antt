-- ===== src/LibMain/Requests.antt =====
-- What the application asks of CLibEzspMain (src/ezsp/lib-ezsp-main.cpp).
use libezsp.Common.{ℕ, ◌==◌, if◌then◌else◌, not, ◌||◌}
use libezsp.Common.{Bool, true, false, List, [], ◌∷◌, ◌++◌}
use libezsp.ByteManip.{u32_get_byte0, u32_get_byte1, u32_get_byte2, u32_get_byte3}
use libezsp.DeviceDb.{GpDevice}
use libezsp.Dongle.{ezsp_launch_standalone_bootloader}
use libezsp.Structs.NetworkParameters.{NetworkParameters}
use libezsp.Effects.{Effect, sends, and_then}
use libezsp.EzspEnum.{ezsp_start_scan, ezsp_get_key, ezsp_set_radio_channel}
use libezsp.EzspEnum.{ember_current_network_key}
use libezsp.Networking.{join_network}
use libezsp.Sink.{GpSink, clear_all_gpds, remove_gpds, register_gpds, open_commissioning_session}
use libezsp.Sink.{close_commissioning_session, authorize_answer_to_gpf_channel_rqst}
use libezsp.Sink.{register_observer}
use libezsp.LibMain.{LibMain, is_in, set_state, sink_done, st_ready, st_scanning}
use libezsp.LibMain.{st_sink_busy, st_switching_to_bootloader_mode, st_wait_dongle_ready}

-- The state, the effects and what is returned.
abbrev pub Answer : Type 0
Answer = LibMain × List Effect × Bool

abbrev answered : Bool → LibMain × List Effect → Answer
answered b (m, es) = (m, es, b)

abbrev refused : LibMain → Answer
refused m = (m, [], false)

-- start; `reset_sent` is what the dongle's reset returns. On a failure the sink's observer is
-- registered a second time, which changes nothing.
unfoldable pub start : Bool → LibMain → LibMain × List Effect
unfolding set_state register_observer
start reset_sent m =
    let registered = record m { gp_sink = (register_observer m.gp_sink).0 } in
    if reset_sent
    then set_state st_wait_dongle_ready registered
    else (record m { gp_sink = (register_observer registered.gp_sink).0 }, [])

unfoldable pub register_library_state_callback : Bool → LibMain → LibMain
register_library_state_callback given m = record m { has_state_callback = given }

unfoldable pub register_gp_frame_recv_callback : Bool → LibMain → LibMain
register_gp_frame_recv_callback given m = record m { has_gp_frame_callback = given }

unfoldable pub register_gp_source_id_callback : Bool → LibMain → LibMain
register_gp_source_id_callback given m = record m { has_gp_source_id_callback = given }

-- The state is SINK_BUSY before the sink is asked, and stays so where the sink refuses.
abbrev pub busy_request : (GpSink → GpSink × List Effect × Bool) → LibMain → Answer
busy_request ask m =
    if is_in st_ready m
    then (let (m', es) = set_state st_sink_busy m in
        let (s, sink_es, success) = ask m'.gp_sink in
        answered success (and_then (m', es) (sink_done (s, sink_es))))
    else refused m

unfoldable pub clear_all_gp_devices : LibMain → Answer
unfolding set_state
clear_all_gp_devices m = busy_request clear_all_gpds m

unfoldable pub remove_gp_devices : List ℕ → LibMain → Answer
unfolding set_state
remove_gp_devices source_id_list m = busy_request (remove_gpds source_id_list) m

unfoldable pub add_gp_devices : List GpDevice → LibMain → Answer
unfolding set_state
add_gp_devices gp_devices_list m = busy_request (register_gpds gp_devices_list) m

unfoldable pub open_commissioning : LibMain → Answer
open_commissioning m =
    if is_in st_ready m
    then answered true (sink_done (open_commissioning_session m.gp_sink) m)
    else refused m

unfoldable pub close_commissioning : LibMain → Answer
close_commissioning m =
    if is_in st_ready m
    then answered true (sink_done (close_commissioning_session m.gp_sink) m)
    else refused m

unfoldable pub set_answer_to_gpf_channel_rqst_policy : Bool → LibMain → LibMain
unfolding authorize_answer_to_gpf_channel_rqst
set_answer_to_gpf_channel_rqst_policy allowed m = record m {
  gp_sink = authorize_answer_to_gpf_channel_rqst allowed m.gp_sink;
}

unfoldable pub set_firmware_upgrade_mode : LibMain → LibMain × List Effect
unfolding set_state
set_firmware_upgrade_mode m =
    and_then (m, sends ezsp_launch_standalone_bootloader (0x01 ∷ []) ∷ [])
      (set_state st_switching_to_bootloader_mode)

-- The payload of EZSP_START_SCAN; mask 0 stands for the channels from 11 to 26.
unfoldable pub scan_payload : ℕ → ℕ → ℕ → List ℕ
scan_payload scan_type duration requested_channel_mask =
    let channel_mask = if requested_channel_mask == 0 then 0x07fff800 else requested_channel_mask in
    scan_type
    ∷ u32_get_byte0 channel_mask
    ∷ u32_get_byte1 channel_mask
    ∷ u32_get_byte2 channel_mask
    ∷ u32_get_byte3 channel_mask
    ∷ duration
    ∷ []

abbrev pub is_scanning : LibMain → Bool
is_scanning m = is_in st_scanning m || m.scan_in_progress

-- `given` tells whether the callback is set; the results of the scan before are cleared.
unfoldable pub start_energy_scan : Bool → ℕ → ℕ → LibMain → Answer
unfolding set_state scan_payload
start_energy_scan given duration requested_channel_mask m =
    if is_scanning m
    then refused m
    else (let (m', es) = set_state st_scanning (record m { last_channel_to_energy_scan = [] }) in
        (
          record m' { has_energy_scan_callback = given; has_active_scan_callback = false },
          es ++ (sends ezsp_start_scan (scan_payload 0x00 duration requested_channel_mask) ∷ []),
          true,
        ))

unfoldable pub start_active_scan : Bool → ℕ → ℕ → LibMain → Answer
unfolding set_state scan_payload
start_active_scan given duration requested_channel_mask m =
    if is_scanning m
    then refused m
    else (let (m', es) =
          set_state st_scanning (record m { last_channel_to_zigbee_network_scan = [] }) in
        (
          record m' { has_active_scan_callback = given; has_energy_scan_callback = false },
          es ++ (sends ezsp_start_scan (scan_payload 0x01 duration requested_channel_mask) ∷ []),
          true,
        ))

unfoldable pub get_network_key : Bool → LibMain → Answer
get_network_key given m = (
  record m { has_network_key_callback = given },
  sends ezsp_get_key (ember_current_network_key ∷ []) ∷ [],
  true,
)

unfoldable pub set_channel : ℕ → LibMain → Answer
set_channel channel m =
    if not (is_in st_ready m) || m.scan_in_progress
    then refused m
    else (m, sends ezsp_set_radio_channel (channel ∷ []) ∷ [], true)

unfoldable pub join : NetworkParameters → LibMain → Answer
unfolding join_network
join nwk_params m =
    if not (is_in st_ready m) || m.scan_in_progress
    then refused m
    else (m, join_network nwk_params, true)

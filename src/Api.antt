-- ===== src/Api.antt =====
-- src/ezsp/ezsp.cpp: CEzsp, the library as the application sees it, which passes every call on to
-- CLibEzspMain. start and forceFirmwareUpgradeOnInitTimeout are in LibMain/Requests and Dongle.
use libezsp.Common.{ℕ, Bool, true, List, []}
use libezsp.DeviceDb.{GpDevice}
use libezsp.Structs.NetworkParameters.{NetworkParameters}
use libezsp.Effects.{Effect}
use libezsp.LibMain.{LibMain}
use libezsp.LibMain.Requests.{Answer, register_library_state_callback}
use libezsp.LibMain.Requests.{register_gp_frame_recv_callback, register_gp_source_id_callback}
use libezsp.LibMain.Requests.{clear_all_gp_devices, remove_gp_devices, add_gp_devices}
use libezsp.LibMain.Requests.{open_commissioning, close_commissioning, set_firmware_upgrade_mode}
use libezsp.LibMain.Requests.{set_answer_to_gpf_channel_rqst_policy, start_energy_scan}
use libezsp.LibMain.Requests.{start_active_scan, get_network_key, set_channel, join}

-- The calls of the application with their arguments; of a callback, whether it is given. The lists
-- have their last element first. What joinNetwork is called with comes in its order.
pub data Request : Type 0 where
  with_state_callback with_gp_frame_callback with_gp_source_id_callback : Bool → Request
  clear_devices open_session close_session upgrade_firmware : Request
  remove_devices : List ℕ → Request
  add_devices : List GpDevice → Request
  answer_channel_requests ask_network_key : Bool → Request
  scan_energy scan_networks : Bool → ℕ → ℕ → Request
  change_channel : ℕ → Request
  join_network : ℕ → ℕ → ℕ → ℕ → ℕ → ℕ → ℕ → ℕ → Request

-- The parameters that joinNetwork sets.
unfoldable pub join_parameters : ℕ → ℕ → ℕ → ℕ → ℕ → ℕ → ℕ → ℕ → NetworkParameters
join_parameters extended_pan_id pan_id channel join_method allowed_channels radio_tx_power
      nwk_manager_id nwk_update_id =
    record {
      extend_pan_id = extended_pan_id;
      pan_id = pan_id;
      radio_tx_power = radio_tx_power;
      radio_channel = channel;
      join_method = join_method;
      nwk_manager_id = nwk_manager_id;
      nwk_update_id = nwk_update_id;
      channels = allowed_channels;
    }

-- A call that returns nothing counts as accepted.
abbrev done : LibMain × List Effect → Answer
done (m, es) = (m, es, true)

unfoldable pub call : Request → LibMain → Answer
unfolding join_parameters
call (with_state_callback given) m = done (register_library_state_callback given m, [])
call (with_gp_frame_callback given) m = done (register_gp_frame_recv_callback given m, [])
call (with_gp_source_id_callback given) m = done (register_gp_source_id_callback given m, [])
call clear_devices m = clear_all_gp_devices m
call (remove_devices ids) m = remove_gp_devices ids m
call (add_devices gpds) m = add_gp_devices gpds m
call open_session m = open_commissioning m
call close_session m = close_commissioning m
call (answer_channel_requests allowed) m =
    done (set_answer_to_gpf_channel_rqst_policy allowed m, [])
call upgrade_firmware m = done (set_firmware_upgrade_mode m)
call (scan_energy given duration mask) m = start_energy_scan given duration mask m
call (scan_networks given duration mask) m = start_active_scan given duration mask m
call (ask_network_key given) m = get_network_key given m
call (change_channel channel) m = set_channel channel m
call (join_network extended_pan_id pan_id channel method channels power manager update) m =
    join (join_parameters extended_pan_id pan_id channel method channels power manager update) m

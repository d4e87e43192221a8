-- ===== src/LibMain.antt =====
-- src/ezsp/lib-ezsp-main.cpp: CLibEzspMain, the state machine of the library. It owns the networking
-- part and the Green Power sink; the commands that it sends to the dongle and the application's
-- callbacks are the effects of each operation.
pub mod Commands
pub mod Config
pub mod Requests
pub mod Init
pub mod Handlers
pub mod Guards
pub mod Steps
pub mod StepInit
pub mod StepMessages
pub mod StepRequests
pub mod Negotiation
pub mod Answers
pub mod Startup
pub mod Scans
use libezsp.Common.{ℤ, ℕ, ◌+◌, ◌==◌, ◌!=◌, if◌then◌else◌, not, ◌&&◌}
use libezsp.Common.{Bool, true, false, List, [], ◌∷◌, ◌++◌, Option, none, some}
use libezsp.Structs.Adapter.{ScanResult}
use libezsp.Effects.{Effect, sends, state_told, sink_state_told, gp_frame_told, gpd_id_told}
use libezsp.Effects.{PublicState, uninitialized, ready, init_failed, sink_busy, in_xmodem_xfr}
use libezsp.Effects.{terminating, SinkState, sink_ready, and_then}
use libezsp.Networking.{ZigbeeNetworking, new_zigbee_networking}
use libezsp.Sink.{GpSink, new_gp_sink, sink_state_number}

-- CLibEzspInternal::State.
pub data State : Type 0 where
  st_uninitialized st_wait_dongle_ready st_getting_ezsp_version st_getting_xncp_info : State
  st_stack_init st_form_nwk_in_progress st_leave_nwk_in_progress st_ready st_scanning : State
  st_joining st_init_failed st_sink_busy st_switching_to_bootloader_mode : State
  st_in_bootloader_menu st_in_xmodem_xfr st_switching_to_ezsp_mode : State
  st_switch_to_bootloader_in_progress st_terminating : State

-- The values of the enum, which are compared by `==`.
abbrev pub state_number : State → ℕ
state_number st_uninitialized = 1
state_number st_wait_dongle_ready = 2
state_number st_getting_ezsp_version = 3
state_number st_getting_xncp_info = 4
state_number st_stack_init = 5
state_number st_form_nwk_in_progress = 6
state_number st_leave_nwk_in_progress = 7
state_number st_ready = 8
state_number st_scanning = 9
state_number st_joining = 10
state_number st_init_failed = 11
state_number st_sink_busy = 12
state_number st_switching_to_bootloader_mode = 13
state_number st_in_bootloader_menu = 14
state_number st_in_xmodem_xfr = 15
state_number st_switching_to_ezsp_mode = 16
state_number st_switch_to_bootloader_in_progress = 17
state_number st_terminating = 18

-- The fields `has_..` tell whether the application has set a callback. The maps are sorted by channel.
pub record LibMain : Type 0 where
  pub exp_ezsp_min_version : ℕ
  pub exp_ezsp_max_version : ℕ
  pub exp_stack_type : ℕ
  pub lib_state : State
  pub has_state_callback : Bool
  pub zb_nwk : ZigbeeNetworking
  pub gp_sink : GpSink
  pub has_gp_frame_callback : Bool
  pub has_gp_source_id_callback : Bool
  pub has_energy_scan_callback : Bool
  pub has_active_scan_callback : Bool
  pub has_network_key_callback : Bool
  pub reset_dot154_channel_at_init : ℕ
  pub scan_in_progress : Bool
  pub last_channel_to_energy_scan : List (ℕ × ℤ)
  pub last_channel_to_zigbee_network_scan : List (ℕ × List ScanResult)

unfoldable pub new_lib_ezsp_main : ℕ → LibMain
unfolding new_zigbee_networking new_gp_sink
new_lib_ezsp_main request_zb_network_reset_to_channel = record {
  exp_ezsp_min_version = 6;
  exp_ezsp_max_version = 8;
  exp_stack_type = 2;
  lib_state = st_uninitialized;
  has_state_callback = false;
  zb_nwk = new_zigbee_networking;
  gp_sink = new_gp_sink;
  has_gp_frame_callback = false;
  has_gp_source_id_callback = false;
  has_energy_scan_callback = false;
  has_active_scan_callback = false;
  has_network_key_callback = false;
  reset_dot154_channel_at_init = request_zb_network_reset_to_channel;
  scan_in_progress = false;
  last_channel_to_energy_scan = [];
  last_channel_to_zigbee_network_scan = [];
}

-- `static_cast<unsigned int>(-1)`: leave the network and terminate.
abbrev pub leave_and_terminate : ℕ
leave_and_terminate = 0xffffffff

abbrev pub is_in : State → LibMain → Bool
is_in i_state m = state_number m.lib_state == state_number i_state

-- The switch of setState; nothing is told in the states that it does not translate.
unfoldable pub public_state : State → Option PublicState
public_state st_uninitialized = some uninitialized
public_state st_wait_dongle_ready = some uninitialized
public_state st_getting_ezsp_version = some uninitialized
public_state st_getting_xncp_info = some uninitialized
public_state st_stack_init = some uninitialized
public_state st_ready = some ready
public_state st_scanning = some ready
public_state st_init_failed = some init_failed
public_state st_sink_busy = some sink_busy
public_state st_form_nwk_in_progress = some sink_busy
public_state st_leave_nwk_in_progress = some sink_busy
public_state st_switching_to_bootloader_mode = some sink_busy
public_state st_in_bootloader_menu = some sink_busy
public_state st_in_xmodem_xfr = some in_xmodem_xfr
public_state st_terminating = some terminating
public_state st_joining = none
public_state st_switching_to_ezsp_mode = none
public_state st_switch_to_bootloader_in_progress = none

abbrev pub told_public : Option PublicState → List Effect
told_public none = []
told_public (some p) = state_told p ∷ []

unfoldable pub set_state : State → LibMain → LibMain × List Effect
unfolding public_state
set_state i_new_state m = (
  record m { lib_state = i_new_state },
  if m.has_state_callback then told_public (public_state i_new_state) else [],
)

-- The callback that the library registers with its sink: READY follows when the sink is ready.
unfoldable pub sink_state_changed : SinkState → LibMain → LibMain × List Effect
unfolding set_state
sink_state_changed i_state m =
    if (sink_state_number i_state == sink_state_number sink_ready) && is_in st_sink_busy m
    then set_state st_ready m
    else (m, [])

-- handleRxGpFrame and handleRxGpdId pass on what they get, where there is a callback.
abbrev pub passed_on : Bool → Effect → LibMain → LibMain × List Effect
passed_on b e m = (m, if b then e ∷ [] else [])

-- What the library makes of an effect of its sink.
abbrev pub absorb_one : Effect → LibMain → LibMain × List Effect
absorb_one (sink_state_told i_state) m = sink_state_changed i_state m
absorb_one (gp_frame_told f) m = passed_on m.has_gp_frame_callback (gp_frame_told f) m
absorb_one (gpd_id_told i known status) m =
    passed_on m.has_gp_source_id_callback (gpd_id_told i known status) m
absorb_one e m = (m, e ∷ [])

unfoldable pub absorb : List Effect → LibMain → LibMain × List Effect
unfolding sink_state_changed
absorb [] m = (m, [])
absorb (e ∷ es) m = and_then (absorb_one e m) (absorb es)

-- The sink is changed by an operation with the effects that are given.
abbrev pub sink_done : GpSink × List Effect → LibMain → LibMain × List Effect
sink_done (s, es) m = absorb es (record m { gp_sink = s })

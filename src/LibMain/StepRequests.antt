-- ===== src/LibMain/StepRequests.antt =====
-- The requests of the application (src/ezsp/lib-ezsp-main.cpp) are steps that send only short commands
-- and never ask for the EZSP version.
use libezsp.Common.{ℕ, ◌≡◌, refl, arith, Bool, false, List, [], ◌∷◌, All, length}
use libezsp.Effects.{Effect, sends, and_then}
use libezsp.Sink.{GpSink, clear_all_gpds, remove_gpds, register_gpds, open_commissioning_session}
use libezsp.Sink.{close_commissioning_session, authorize_answer_to_gpf_channel_rqst}
use libezsp.Sink.Fits.{KeysFit, IsKeyed, IsFitAnswer, clear_all_gpds-IsFit, remove_gpds-IsFit}
use libezsp.Sink.Fits.{register_gpds-IsFit, open_session-IsFit, close_session-IsFit, IsFit}
use libezsp.LibMain.{LibMain, set_state, st_sink_busy, sink_done}
use libezsp.LibMain.{st_scanning, st_switching_to_bootloader_mode}
use libezsp.LibMain.Requests.{Answer, busy_request, clear_all_gp_devices, remove_gp_devices}
use libezsp.LibMain.Requests.{add_gp_devices, open_commissioning, close_commissioning}
use libezsp.LibMain.Requests.{set_firmware_upgrade_mode, start_energy_scan, start_active_scan}
use libezsp.LibMain.Requests.{scan_payload, get_network_key, set_channel, join}
use libezsp.LibMain.Requests.{set_answer_to_gpf_channel_rqst_policy}
use libezsp.LibMain.Requests.{register_library_state_callback, register_gp_frame_recv_callback}
use libezsp.LibMain.Requests.{register_gp_source_id_callback}
use libezsp.LibMain.Steps.{Step, IsStep, IsSound, same-Step, plain-Step, then-Step, set_state-Step}
use libezsp.LibMain.Steps.{sink_done-Step, from-Step}
use libezsp.Api.{Request, call, with_state_callback, with_gp_frame_callback}
use libezsp.Api.{
  with_gp_source_id_callback, clear_devices, remove_devices, add_devices, open_session,
}
use libezsp.Api.{close_session, answer_channel_requests, upgrade_firmware, scan_energy}
use libezsp.Api.{scan_networks, ask_network_key, change_channel, join_network}
use libezsp.Api
use libezsp.Networking
use libezsp.Networking.Fits.{join_network-IsPlain}
use libezsp.EzspEnum.{ezsp_start_scan, ezsp_set_radio_channel}
use libezsp.Dongle.{ezsp_launch_standalone_bootloader}

abbrev pub IsStepAnswer : LibMain → Answer → Type 0
IsStepAnswer m (m', es, b) = Step m m' es

busy_request-Step :
    (ask : GpSink → GpSink × List Effect × Bool) (m : LibMain)
    → ((s : GpSink) → KeysFit s → IsFitAnswer (ask s))
    → IsSound m
    → IsStepAnswer m (busy_request ask m)
unfolding set_state
busy_request-Step ask m fits i =
    let asked : LibMain → LibMain × List Effect =
      λ m'. sink_done ((ask m'.gp_sink).0, (ask m'.gp_sink).1) m' in
    ground (
      arith,
      same-Step m [] i tt,
      then-Step m (set_state st_sink_busy m) asked (set_state-Step st_sink_busy m i)
          (λ i'. sink_done-Step _ (set_state st_sink_busy m).0 (fits m.gp_sink i.keys) i'),
    )

length-scan_payload :
    (scan_type duration mask : ℕ) → length (scan_payload scan_type duration mask) ≡ 6
unfolding scan_payload
length-scan_payload scan_type duration mask = refl

-- The last part of both scans.
abbrev send_scan : ℕ → ℕ → ℕ → Bool → Bool → LibMain → LibMain × List Effect
send_scan scan_type duration mask energy active m = (
  record m { has_energy_scan_callback = energy; has_active_scan_callback = active },
  sends ezsp_start_scan (scan_payload scan_type duration mask) ∷ [],
)

-- What both scans do after the results of the scan before are cleared.
scan-Step :
    (scan_type duration mask : ℕ) (energy active : Bool) (m : LibMain)
    → IsSound m
    → IsStep m
        (and_then (set_state st_scanning m) (send_scan scan_type duration mask energy active))
scan-Step scan_type duration mask energy active m i =
    let (m', es) = send_scan scan_type duration mask energy active (set_state st_scanning m).0 in
    then-Step m (set_state st_scanning m) (send_scan scan_type duration mask energy active)
      (set_state-Step st_scanning m i)
      (λ i'.
        plain-Step (set_state st_scanning m).0 m' es i' i'.keys
          ((omega arith, omega (arith, length-scan_payload scan_type duration mask)), tt) refl refl
          refl)

energy_scan-Step :
    (given : Bool) (duration mask : ℕ) (m : LibMain)
    → IsSound m
    → IsStepAnswer m (start_energy_scan given duration mask m)
unfolding start_energy_scan
energy_scan-Step given duration mask m i =
    let cleared : LibMain = record m { last_channel_to_energy_scan = [] } in
    ground (
      arith,
      same-Step m [] i tt,
      from-Step m cleared _ i i.keys refl refl refl (scan-Step 0 duration mask given false cleared),
    )

active_scan-Step :
    (given : Bool) (duration mask : ℕ) (m : LibMain)
    → IsSound m
    → IsStepAnswer m (start_active_scan given duration mask m)
unfolding start_active_scan
active_scan-Step given duration mask m i =
    let cleared : LibMain = record m { last_channel_to_zigbee_network_scan = [] } in
    ground (
      arith,
      same-Step m [] i tt,
      from-Step m cleared _ i i.keys refl refl refl (scan-Step 1 duration mask false given cleared),
    )

bootloader-Step : (m : LibMain) → IsSound m → IsStep m (set_firmware_upgrade_mode m)
unfolding set_firmware_upgrade_mode
bootloader-Step m i =
    then-Step m (m, sends ezsp_launch_standalone_bootloader (0x01 ∷ []) ∷ [])
      (set_state st_switching_to_bootloader_mode) (same-Step m _ i ((omega arith, omega arith), tt))
      (set_state-Step st_switching_to_bootloader_mode m)

session-Step :
    (ask : GpSink → GpSink × List Effect) (m : LibMain)
    → ((s : GpSink) → KeysFit s → IsFit (ask s))
    → IsSound m
    → IsStep m (sink_done (ask m.gp_sink) m)
session-Step ask m fits i = sink_done-Step (ask m.gp_sink) m (fits m.gp_sink i.keys) i

-- The keys of the devices that are added are not longer than 16 bytes.
abbrev pub IsKeyedRequest : Request → Type 0
IsKeyedRequest (add_devices gpds) = All IsKeyed gpds
IsKeyedRequest _ = Unit

pub call-Step :
    (r : Request) (m : LibMain) → IsKeyedRequest r → IsSound m → IsStepAnswer m (call r m)
unfolding call clear_all_gp_devices remove_gp_devices add_gp_devices open_commissioning
    close_commissioning get_network_key set_channel join register_library_state_callback
    register_gp_frame_recv_callback register_gp_source_id_callback
    set_answer_to_gpf_channel_rqst_policy authorize_answer_to_gpf_channel_rqst
call-Step (with_state_callback given) m h i = plain-Step m _ [] i i.keys tt refl refl refl
call-Step (with_gp_frame_callback given) m h i = plain-Step m _ [] i i.keys tt refl refl refl
call-Step (with_gp_source_id_callback given) m h i = plain-Step m _ [] i i.keys tt refl refl refl
call-Step clear_devices m h i = busy_request-Step clear_all_gpds m clear_all_gpds-IsFit i
call-Step (remove_devices ids) m h i =
    busy_request-Step (remove_gpds ids) m (remove_gpds-IsFit ids) i
call-Step (add_devices gpds) m h i =
    busy_request-Step (register_gpds gpds) m (λ s k. register_gpds-IsFit gpds s h k) i
call-Step open_session m h i =
    ground
      (arith, same-Step m [] i tt, session-Step open_commissioning_session m open_session-IsFit i)
call-Step close_session m h i =
    ground
      (arith, same-Step m [] i tt, session-Step close_commissioning_session m close_session-IsFit i)
call-Step (answer_channel_requests allowed) m h i =
    plain-Step m _ [] i
      (record { entry_key = i.keys.entry_key; register_keys = i.keys.register_keys }) tt refl refl
      refl
call-Step upgrade_firmware m h i = bootloader-Step m i
call-Step (scan_energy given duration mask) m h i = energy_scan-Step given duration mask m i
call-Step (scan_networks given duration mask) m h i = active_scan-Step given duration mask m i
call-Step (ask_network_key given) m h i =
    plain-Step m _ _ i i.keys ((omega arith, omega arith), tt) refl refl refl
call-Step (change_channel channel) m h i = ground (
  arith,
  same-Step m [] i tt,
  same-Step m (sends ezsp_set_radio_channel (channel ∷ []) ∷ []) i ((omega arith, omega arith), tt),
)
call-Step (join_network e p c method channels power manager update) m h i =
    let params = Api.join_parameters e p c method channels power manager update in
    ground (
      arith,
      same-Step m [] i tt,
      same-Step m (Networking.join_network params) i (join_network-IsPlain params),
    )

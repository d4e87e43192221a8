-- ===== src/LibMain/Guards.antt =====
-- When CLibEzspMain (src/ezsp/lib-ezsp-main.cpp) accepts a request, and what a refused one leaves.
use libezsp.Common.{ℕ, ◌≡◌, arith, true, false, List, []}
use libezsp.DeviceDb.{GpDevice}
use libezsp.Effects.{sink_ready}
use libezsp.Sink.{GpSink, clear_all_gpds, remove_gpds, register_gpds, gp_clear_all_tables}
use libezsp.Sink as Sink
use libezsp.LibMain.{LibMain, is_in, set_state, st_ready, st_sink_busy}
use libezsp.LibMain.{absorb}
use libezsp.LibMain.Requests.{clear_all_gp_devices, remove_gp_devices, add_gp_devices}
use libezsp.LibMain.Requests.{Answer}

abbrev pub refusal : LibMain → Answer
refusal m = (m, [], false)

-- What is left by a request that READY lets through and the sink refuses.
abbrev pub stuck : LibMain → Answer
stuck m = (record m { lib_state = st_sink_busy }, (set_state st_sink_busy m).1, false)

-- While the sink is at work on something else, a request to add, to remove or to clear devices that
-- READY lets through returns false and sends no command, but leaves the library in SINK_BUSY.
pub refused_by_sink :
    (m : LibMain) (gpds : List GpDevice) (ids : List ℕ)
    → is_in st_ready m ≡ true
    → Sink.is_in sink_ready m.gp_sink ≡ false
    → (add_gp_devices gpds m ≡ stuck m)
      × (remove_gp_devices ids m ≡ stuck m)
      × (clear_all_gp_devices m ≡ stuck m)
unfolding add_gp_devices remove_gp_devices clear_all_gp_devices clear_all_gpds remove_gpds
    register_gpds set_state absorb
refused_by_sink m gpds ids ready busy = ground arith

-- In READY, a request to add or to remove devices whose list is empty returns false and sends no
-- command, but leaves the library in SINK_BUSY with its sink as it was; there every further request
-- to add, to remove or to clear devices is refused without any change.
pub empty_request_stuck :
    (m : LibMain) (gpds : List GpDevice) (ids : List ℕ)
    → is_in st_ready m ≡ true
    → (add_gp_devices [] m ≡ stuck m)
      × (remove_gp_devices [] m ≡ stuck m)
      × (let m' = (stuck m).0 in
          (m'.gp_sink ≡ m.gp_sink)
          × (add_gp_devices gpds m' ≡ refusal m')
          × (remove_gp_devices ids m' ≡ refusal m')
          × (clear_all_gp_devices m' ≡ refusal m'))
unfolding add_gp_devices remove_gp_devices clear_all_gp_devices remove_gpds register_gpds set_state
    absorb
empty_request_stuck m gpds ids ready = ground arith

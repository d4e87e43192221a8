-- ===== src/LibMain/StepMessages.antt =====
-- Every message that the dongle's observers handle (src/ezsp/lib-ezsp-main.cpp and
-- src/ezsp/zigbee-tools/) is a step that keeps the bounds of the EZSP version and sends only short
-- commands; so is every history of messages.
use libezsp.Common.{ℤ, ℕ, ◌≤◌, refl, arith, Bool, true, false, List, [], ◌∷◌}
use libezsp.Common.{length, if◌then◌else◌, Option, none, some}
use libezsp.Structs.Adapter.{KeyStruct, read_key_struct, ZigbeeNetwork, read_zigbee_network}
use libezsp.Structs.NetworkParameters.{NetworkParametersResponse}
use libezsp.Structs.NetworkParameters.{read_network_parameters_response}
use libezsp.Effects.{ran, thrown, and_then}
use libezsp.Effects.{key_told, energy_scan_told, active_scan_told}
use libezsp.LibMain.{LibMain, set_state, st_stack_init, st_ready}
use libezsp.LibMain.Init.{Draws}
use libezsp.LibMain.Handlers.{handle_get_key, handle_start_scan, handle_energy_scan_result}
use libezsp.LibMain.Handlers.{handle_network_found, tell_energy_scan, tell_active_scan}
use libezsp.LibMain.Handlers.{scan_complete, print_network_parameters, handle_main_message}
use libezsp.LibMain.Handlers.{network_found}
use libezsp.LibMain.Steps.{IsStep, IsSound, plain-Step, same-Step, then-Step}
use libezsp.LibMain.Steps.{set_state-Step, from-Step}
use libezsp.LibMain.StepInit.{IsStepRan, handle_version-Step, handle_xncp_info-Step}
use libezsp.LibMain.StepInit.{handle_network_state-Step, handle_launch_bootloader-Step}
use libezsp.LibMain.StepInit.{handle_stack_status-Step}

key-Step :
    (status : ℕ) (o : Option KeyStruct) (m : LibMain)
    → IsSound m
    → IsStepRan m (elim o [
      | none ↦ thrown m []
      | some k ↦
          if m.has_network_key_callback
          then ran (record m { has_network_key_callback = false }) (key_told status k.key ∷ [])
          else ran m []
    ])
key-Step status none m i = same-Step m [] i tt
key-Step status (some k) m i = ground (
  arith,
  same-Step m [] i tt,
  plain-Step m (record m { has_network_key_callback = false }) (key_told status k.key ∷ []) i i.keys
      (tt, tt) refl refl refl,
)

get_key-Step : (msg : List ℕ) (m : LibMain) → IsSound m → IsStepRan m (handle_get_key msg m)
unfolding handle_get_key
get_key-Step [] m i = same-Step m [] i tt
get_key-Step (status ∷ rest) m i = key-Step status (read_key_struct rest) m i

start_scan-Step : (msg : List ℕ) (m : LibMain) → IsSound m → IsStepRan m (handle_start_scan msg m)
unfolding handle_start_scan
start_scan-Step [] m i = same-Step m [] i tt
start_scan-Step (status ∷ rest) m i = plain-Step m _ [] i i.keys tt refl refl refl

energy_result-Step :
    (msg : List ℕ) (m : LibMain) → IsSound m → IsStepRan m (handle_energy_scan_result msg m)
unfolding handle_energy_scan_result
energy_result-Step [] m i = same-Step m [] i tt
energy_result-Step (a ∷ []) m i = same-Step m [] i tt
energy_result-Step (a ∷ b ∷ rest) m i = plain-Step m _ [] i i.keys tt refl refl refl

found-Step :
    (o : Option ZigbeeNetwork) (l : ℕ) (r : ℤ) (long : Bool) (m : LibMain)
    → IsSound m
    → IsStepRan m (elim o [
      | none ↦ thrown m []
      | some n ↦
          if long
          then ran
              (network_found (record { network = n; last_hop_lqi = l; last_hop_rssi = r }) m)
              []
          else thrown m []
    ])
unfolding network_found
found-Step none l r long m i = same-Step m [] i tt
found-Step (some n) l r true m i = plain-Step m _ [] i i.keys tt refl refl refl
found-Step (some n) l r false m i = same-Step m [] i tt

network_found-Step :
    (msg : List ℕ) (m : LibMain) → IsSound m → IsStepRan m (handle_network_found msg m)
unfolding handle_network_found
network_found-Step msg m i = found-Step (read_zigbee_network msg) _ _ _ m i

tell_energy-Step : (m : LibMain) → IsSound m → IsStep m (tell_energy_scan m)
unfolding tell_energy_scan
tell_energy-Step m i = ground (
  arith,
  same-Step m [] i tt,
  plain-Step m (record m { has_energy_scan_callback = false })
      (energy_scan_told m.last_channel_to_energy_scan ∷ []) i i.keys (tt, tt) refl refl refl,
)

tell_active-Step : (m : LibMain) → IsSound m → IsStep m (tell_active_scan m)
unfolding tell_active_scan
tell_active-Step m i = ground (
  arith,
  same-Step m [] i tt,
  plain-Step m (record m { has_active_scan_callback = false })
      (active_scan_told m.last_channel_to_zigbee_network_scan ∷ []) i i.keys (tt, tt) refl refl
      refl,
)

scan_complete-Step : (m : LibMain) → IsSound m → IsStep m (scan_complete m)
unfolding scan_complete
scan_complete-Step m i =
    let stopped : LibMain = record m { scan_in_progress = false } in
    let s = plain-Step m stopped [] i i.keys tt refl refl refl in
    let r = set_state st_ready stopped in
    ground (
      arith,
      s,
      from-Step m stopped (and_then (and_then r tell_energy_scan) tell_active_scan) i i.keys refl
          refl refl
          (λ i'.
            then-Step stopped (and_then r tell_energy_scan) tell_active_scan
              (then-Step stopped r tell_energy_scan (set_state-Step st_ready stopped i')
                (tell_energy-Step r.0))
              (tell_active-Step (and_then r tell_energy_scan).0)),
    )

printed-Step :
    (o : Option NetworkParametersResponse) (m : LibMain)
    → IsSound m
    → IsStepRan m (elim o [ none ↦ thrown m [] | some r ↦ ran m [] ])
printed-Step none m i = same-Step m [] i tt
printed-Step (some r) m i = same-Step m [] i tt

print-Step : (msg : List ℕ) (m : LibMain) → IsSound m → IsStepRan m (print_network_parameters msg m)
unfolding print_network_parameters
print-Step msg m i = printed-Step (read_network_parameters_response msg) m i

pub main-Step :
    (draws : Draws) (cmd : ℕ) (msg : List ℕ) (m : LibMain)
    → length draws.network_key ≤ 16
    → IsSound m
    → IsStepRan m (handle_main_message draws cmd msg m)
unfolding handle_main_message
main-Step draws cmd msg m h i = ground (
  arith,
  same-Step m [] i tt,
  handle_stack_status-Step msg m i,
  print-Step msg m i,
  get_key-Step msg m i,
  handle_version-Step msg m i,
  handle_xncp_info-Step msg m i,
  handle_network_state-Step draws.network_key msg m h i,
  set_state-Step st_stack_init m i,
  handle_launch_bootloader-Step m i,
  start_scan-Step msg m i,
  energy_result-Step msg m i,
  network_found-Step msg m i,
  scan_complete-Step m i,
)

-- ===== src/LibMain/StepInit.antt =====
-- The operations of src/ezsp/lib-ezsp-main.cpp that start the adapter's stack are steps that keep the
-- bounds of the EZSP version and send only short commands.
use libezsp.Common.{ℕ, ◌≤◌, ◌<◌, refl, arith, List, [], ◌∷◌, map}
use libezsp.Common.{length, All, All-append, u8}
use libezsp.Effects.{Effect, sends, Ran, ran, thrown, and_then}
use libezsp.EzspEnum.{ezsp_get_xncp_info, ezsp_get_network_parameters, ezsp_network_state}
use libezsp.Dongle.{bootloader_firmware_upgrade}
use libezsp.Effects.{mode_set, stack_version_fetched, ezsp_version_fetched}
use libezsp.ByteManip.{dble_u8_to_u16}
use libezsp.Networking.{form_ha_network, leave_network}
use libezsp.Networking.Fits.{form_ha_network-IsPlain, leave_network-IsPlain, stack_init-IsPlain}
use libezsp.Sink.{GpSink, init, register_state_callback}
use libezsp.Sink.Fits.{IsPlain, KeysFit, init-IsFit}
use libezsp.LibMain.{LibMain, set_state, sink_done, st_getting_ezsp_version}
use libezsp.LibMain.{st_getting_xncp_info, st_stack_init, st_form_nwk_in_progress}
use libezsp.LibMain.{st_leave_nwk_in_progress, st_init_failed, st_terminating, st_sink_busy}
use libezsp.LibMain.Config.{stack_init_commands, config, policy, stack_config, stack_policy}
use libezsp.LibMain.Init.{dongle_init, get_xncp_info, compare_version, handle_version, xncp_data}
use libezsp.LibMain.Init.{handle_xncp_info, no_network, network_state_known, handle_network_state}
use libezsp.LibMain.Init.{handle_launch_bootloader, start_sink, stack_status_known, keep_callback}
use libezsp.LibMain.Init.{handle_stack_status}
use libezsp.LibMain.Steps.{Step, IsStep, IsSound, versions, plain-Step, same-Step, then-Step}
use libezsp.LibMain.Steps.{set_state-Step, sink_done-Step, versions-append, IsShort}
use libezsp.LibMain.Steps.{effects-Step}

-- Whether a handler returns or throws.
abbrev pub IsStepRan : LibMain → Ran LibMain → Type 0
IsStepRan m (ran m' es) = Step m m' es
IsStepRan m (thrown m' es) = Step m m' es

get_xncp_info-Step : (m : LibMain) → IsSound m → IsStep m (get_xncp_info m)
unfolding get_xncp_info
get_xncp_info-Step m i =
    effects-Step m (set_state st_getting_xncp_info m) (sends ezsp_get_xncp_info [] ∷ [])
      (set_state-Step st_getting_xncp_info m i) ((omega arith, omega arith), tt)

-- The version is asked for once, when the expected version has risen.
dongle_init-Step :
    (v : ℕ) (m : LibMain)
    → IsSound m
    → m.exp_ezsp_min_version < v
    → v ≤ m.exp_ezsp_max_version
    → IsStep m (dongle_init v (record m { exp_ezsp_min_version = v }))
unfolding dongle_init versions set_state
dongle_init-Step v m i lt le =
    let m₁ : LibMain = record m { exp_ezsp_min_version = v } in
    let s = set_state-Step st_getting_ezsp_version m₁ (record { keys = i.keys; bounded = le }) in
    let es = (set_state st_getting_ezsp_version m₁).1 in
    record {
      keys = s.keys;
      short = All-append IsShort es (sends 0 (v ∷ []) ∷ []) s.short (omega arith, tt);
      counted = omega (arith, s.counted, versions-append es (sends 0 (v ∷ []) ∷ []));
      bounded = le;
      max_kept = refl;
      type_kept = refl;
    }

compare_version-Step : (v t : ℕ) (m : LibMain) → IsSound m → IsStep m (compare_version v t m)
unfolding compare_version
compare_version-Step v t m i =
    ground (arith, same-Step m [] i tt, get_xncp_info-Step m i, dongle_init-Step v m i)

pub handle_version-Step : (msg : List ℕ) (m : LibMain) → IsSound m → IsStep m (handle_version msg m)
unfolding handle_version
handle_version-Step [] m i = same-Step m [] i tt
handle_version-Step (a ∷ []) m i = same-Step m [] i tt
handle_version-Step (a ∷ b ∷ []) m i =
    then-Step m (m, stack_version_fetched (dble_u8_to_u16 b a) ∷ []) get_xncp_info
      (same-Step m _ i (tt, tt)) (get_xncp_info-Step m)
handle_version-Step (a ∷ b ∷ c ∷ []) m i = same-Step m [] i tt
handle_version-Step (a ∷ b ∷ c ∷ d ∷ []) m i =
    then-Step m (m, ezsp_version_fetched (dble_u8_to_u16 d c) a b ∷ []) (compare_version a b)
      (same-Step m _ i (tt, tt)) (compare_version-Step a b m)
handle_version-Step (a ∷ b ∷ c ∷ d ∷ e ∷ rest) m i = same-Step m [] i tt

xncp_data-IsPlain : (msg : List ℕ) → All IsPlain (xncp_data msg)
unfolding xncp_data
xncp_data-IsPlain [] = tt
xncp_data-IsPlain (a ∷ []) = tt
xncp_data-IsPlain (a ∷ b ∷ []) = tt
xncp_data-IsPlain (a ∷ b ∷ c ∷ []) = tt
xncp_data-IsPlain (a ∷ b ∷ c ∷ d ∷ []) = tt
xncp_data-IsPlain (a ∷ b ∷ c ∷ d ∷ e ∷ rest) = ground arith

commands-IsPlain : All IsPlain stack_init_commands
unfolding stack_init_commands
commands-IsPlain = stack_init-IsPlain (map config stack_config) (map policy stack_policy)

pub handle_xncp_info-Step :
    (msg : List ℕ) (m : LibMain) → IsSound m → IsStep m (handle_xncp_info msg m)
unfolding handle_xncp_info
handle_xncp_info-Step msg m i =
    effects-Step m (and_then (m, xncp_data msg) (set_state st_stack_init)) stack_init_commands
      (then-Step m (m, xncp_data msg) (set_state st_stack_init)
        (same-Step m _ i (xncp_data-IsPlain msg)) (set_state-Step st_stack_init m))
      commands-IsPlain

form-Step :
    (drawn : List ℕ) (m : LibMain)
    → length drawn ≤ 16
    → IsSound m
    → let (n, es) = form_ha_network drawn (u8 m.reset_dot154_channel_at_init) m.zb_nwk in
      IsStep m (
        and_then
          (and_then (record m { zb_nwk = n }, es) (set_state st_form_nwk_in_progress))
          (λ m'. (record m' { reset_dot154_channel_at_init = 0 }, [])))
unfolding versions
form-Step drawn m h i =
    let (n, es) = form_ha_network drawn (u8 m.reset_dot154_channel_at_init) m.zb_nwk in
    let formed : LibMain × List Effect = (record m { zb_nwk = n }, es) in
    let plain = form_ha_network-IsPlain drawn (u8 m.reset_dot154_channel_at_init) m.zb_nwk h in
    then-Step m (and_then formed (set_state st_form_nwk_in_progress))
      (λ m'. (record m' { reset_dot154_channel_at_init = 0 }, []))
      (then-Step m formed (set_state st_form_nwk_in_progress)
        (plain-Step m formed.0 es i i.keys plain refl refl refl)
        (set_state-Step st_form_nwk_in_progress formed.0))
      (λ i'. record {
        keys = i'.keys;
        short = tt;
        counted = omega arith;
        bounded = i'.bounded;
        max_kept = refl;
        type_kept = refl;
      })

no_network-Step :
    (drawn : List ℕ) (m : LibMain) → length drawn ≤ 16 → IsSound m → IsStep m (no_network drawn m)
unfolding no_network
no_network-Step drawn m h i = ground (
  arith,
  same-Step m [] i tt,
  set_state-Step st_terminating m i,
  set_state-Step st_init_failed m i,
  form-Step drawn m h i,
)

network_state-Step :
    (drawn : List ℕ) (state : ℕ) (m : LibMain)
    → length drawn ≤ 16
    → IsSound m
    → IsStep m (network_state_known drawn state m)
unfolding network_state_known
network_state-Step drawn state m h i = ground (
  arith,
  same-Step m [] i tt,
  no_network-Step drawn m h i,
  then-Step m (m, leave_network) (set_state st_leave_nwk_in_progress)
      (same-Step m leave_network i leave_network-IsPlain)
      (set_state-Step st_leave_nwk_in_progress m),
)

pub handle_network_state-Step :
    (drawn msg : List ℕ) (m : LibMain)
    → length drawn ≤ 16
    → IsSound m
    → IsStepRan m (handle_network_state drawn msg m)
unfolding handle_network_state
handle_network_state-Step drawn [] m h i = same-Step m [] i tt
handle_network_state-Step drawn (state ∷ rest) m h i = network_state-Step drawn state m h i

pub handle_launch_bootloader-Step :
    (m : LibMain) → IsSound m → IsStep m (handle_launch_bootloader m)
unfolding handle_launch_bootloader
handle_launch_bootloader-Step m i =
    ground (
      arith,
      same-Step m [] i tt,
      same-Step m (mode_set bootloader_firmware_upgrade ∷ []) i (tt, tt),
    )

registered-KeysFit :
    (m : LibMain) → IsSound m → KeysFit (register_state_callback keep_callback m.gp_sink)
unfolding register_state_callback
registered-KeysFit m i = record {
  entry_key = i.keys.entry_key;
  register_keys = i.keys.register_keys;
}

-- The part of `start_sink` that follows the change of state.
abbrev init_sink : LibMain → LibMain × List Effect
init_sink m = sink_done (init (register_state_callback keep_callback m.gp_sink)) m

init_sink-Step : (m : LibMain) → IsSound m → IsStep m (init_sink m)
init_sink-Step m i =
    let s : GpSink = register_state_callback keep_callback m.gp_sink in
    sink_done-Step (init s) m (init-IsFit s (registered-KeysFit m i)) i

start_sink-Step : (m : LibMain) → IsSound m → IsStep m (start_sink m)
unfolding start_sink
start_sink-Step m i =
    then-Step m (set_state st_sink_busy m) init_sink (set_state-Step st_sink_busy m i)
      (init_sink-Step (set_state st_sink_busy m).0)

stack_status-Step : (status : ℕ) (m : LibMain) → IsSound m → IsStep m (stack_status_known status m)
unfolding stack_status_known
stack_status-Step status m i = ground (
  arith,
  same-Step m [] i tt,
  start_sink-Step m i,
  same-Step m (sends ezsp_get_network_parameters [] ∷ []) i ((omega arith, omega arith), tt),
  same-Step m (sends ezsp_network_state [] ∷ []) i ((omega arith, omega arith), tt),
)

pub handle_stack_status-Step :
    (msg : List ℕ) (m : LibMain) → IsSound m → IsStepRan m (handle_stack_status msg m)
unfolding handle_stack_status
handle_stack_status-Step [] m i = same-Step m [] i tt
handle_stack_status-Step (status ∷ rest) m i = stack_status-Step status m i

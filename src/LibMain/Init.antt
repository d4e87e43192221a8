-- ===== src/LibMain/Init.antt =====
-- The start of the adapter's stack in CLibEzspMain (src/ezsp/lib-ezsp-main.cpp): the EZSP version is
-- agreed on, the manufacturer's data are read, the stack is configured and the network is formed,
-- joined again or left.
use libezsp.Common.{ℕ, ◌==◌, ◌!=◌, if◌then◌else◌, ◌&&◌, ltb, leb, u8}
use libezsp.Common.{Bool, true, List, [], ◌∷◌}
use libezsp.ByteManip.{dble_u8_to_u16}
use libezsp.Dongle.{DongleState, dongle_ready, dongle_remove, dongle_not_responding}
use libezsp.Dongle.{dongle_version_retrieved, ezsp_version, bootloader_firmware_upgrade}
use libezsp.Effects.{Effect, sends, stack_version_fetched, ezsp_version_fetched, xncp_fetched}
use libezsp.Effects.{mode_set, and_then, Ran, thrown, returned, SinkState}
use libezsp.EzspEnum.{ezsp_get_xncp_info, ember_success, ember_no_network, ember_network_up}
use libezsp.EzspEnum.{ezsp_network_state, ezsp_get_network_parameters}
use libezsp.Networking.{form_ha_network, leave_network}
use libezsp.Sink.{init, register_state_callback}
use libezsp.LibMain.{LibMain, is_in, set_state, sink_done, leave_and_terminate}
use libezsp.LibMain.{st_wait_dongle_ready, st_getting_ezsp_version, st_getting_xncp_info}
use libezsp.LibMain.{st_stack_init, st_form_nwk_in_progress, st_leave_nwk_in_progress}
use libezsp.LibMain.{st_init_failed, st_terminating, st_sink_busy, st_switching_to_bootloader_mode}
use libezsp.LibMain.{st_in_xmodem_xfr}
use libezsp.LibMain.Config.{stack_init_commands}

-- What the random engine draws next: the bytes of a network key, and a PAN ID.
pub record Draws : Type 0 where
  pub network_key : List ℕ
  pub pan_id : ℕ

unfoldable pub dongle_init : ℕ → LibMain → LibMain × List Effect
unfolding set_state
dongle_init i_version m =
    and_then (set_state st_getting_ezsp_version m)
      (λ m'. (m', sends ezsp_version (i_version ∷ []) ∷ []))

unfoldable pub get_xncp_info : LibMain → LibMain × List Effect
unfolding set_state
get_xncp_info m =
    and_then (set_state st_getting_xncp_info m) (λ m'. (m', sends ezsp_get_xncp_info [] ∷ []))

-- handleDongleState; the other states are only printed.
unfoldable pub handle_dongle_state : DongleState → LibMain → LibMain × List Effect
unfolding dongle_init
handle_dongle_state dongle_ready m =
    if is_in st_wait_dongle_ready m then dongle_init m.exp_ezsp_min_version m else (m, [])
handle_dongle_state dongle_remove m = (m, [])
handle_dongle_state dongle_not_responding m = (m, [])
handle_dongle_state dongle_version_retrieved m = (m, [])

-- A version of four bytes: the protocol's version and the stack's type, compared with what is
-- expected.
unfoldable pub compare_version : ℕ → ℕ → LibMain → LibMain × List Effect
unfolding dongle_init get_xncp_info
compare_version protocol_version stack_type m =
    if stack_type != m.exp_stack_type
    then (m, [])
    else if ltb m.exp_ezsp_min_version protocol_version
    then if ltb m.exp_ezsp_max_version protocol_version
      then (m, [])
      else dongle_init protocol_version (record m { exp_ezsp_min_version = protocol_version })
    else if (protocol_version == m.exp_ezsp_min_version)
        && leb protocol_version m.exp_ezsp_max_version
    then get_xncp_info m
    else (m, [])

-- handleEzspRxMessage_VERSION. A payload of another size than two or four bytes is refused; where it
-- is empty, the message that says so reads past its end.
unfoldable pub handle_version : List ℕ → LibMain → LibMain × List Effect
unfolding compare_version get_xncp_info
handle_version (s0 ∷ s1 ∷ []) m =
    and_then (m, stack_version_fetched (dble_u8_to_u16 s1 s0) ∷ []) get_xncp_info
handle_version (protocol_version ∷ stack_type ∷ s0 ∷ s1 ∷ []) m =
    and_then (m, ezsp_version_fetched (dble_u8_to_u16 s1 s0) protocol_version stack_type ∷ [])
      (compare_version protocol_version stack_type)
handle_version _ m = (m, [])

-- The manufacturer's ID and version, from a message of at least five bytes that tells a success.
unfoldable pub xncp_data : List ℕ → List Effect
xncp_data (status ∷ m0 ∷ m1 ∷ v0 ∷ v1 ∷ rest) =
    if status != ember_success
    then []
    else xncp_fetched (dble_u8_to_u16 m1 m0) (dble_u8_to_u16 v1 v0) ∷ []
xncp_data _ = []

-- handleEzspRxMessage_EZSP_GET_XNCP_INFO.
unfoldable pub handle_xncp_info : List ℕ → LibMain → LibMain × List Effect
unfolding xncp_data set_state
handle_xncp_info i_msg_receive m =
    and_then (and_then (m, xncp_data i_msg_receive) (set_state st_stack_init))
      (λ m'. (m', stack_init_commands))

-- The part of handleEzspRxMessage_NETWORK_STATE for an adapter without a network.
unfoldable pub no_network : List ℕ → LibMain → LibMain × List Effect
unfolding set_state form_ha_network
no_network drawn_key m =
    if m.reset_dot154_channel_at_init == leave_and_terminate
    then set_state st_terminating m
    else if m.reset_dot154_channel_at_init == 0
    then set_state st_init_failed m
    else if is_in st_stack_init m
    then (let (n, es) = form_ha_network drawn_key (u8 m.reset_dot154_channel_at_init) m.zb_nwk in
        and_then (and_then (record m { zb_nwk = n }, es) (set_state st_form_nwk_in_progress))
          (λ m'. (record m' { reset_dot154_channel_at_init = 0 }, [])))
    else (m, [])

unfoldable pub network_state_known : List ℕ → ℕ → LibMain → LibMain × List Effect
unfolding no_network set_state leave_network
network_state_known drawn_key state m =
    if is_in st_form_nwk_in_progress m && (state == ember_no_network)
    then (m, [])
    else if state == ember_no_network
    then no_network drawn_key m
    else if is_in st_stack_init m && (m.reset_dot154_channel_at_init != 0)
    then and_then (m, leave_network) (set_state st_leave_nwk_in_progress)
    else (m, [])

-- handleEzspRxMessage_NETWORK_STATE.
unfoldable pub handle_network_state : List ℕ → List ℕ → LibMain → Ran LibMain
unfolding network_state_known
handle_network_state drawn_key [] m = thrown m []
handle_network_state drawn_key (state ∷ rest) m = returned (network_state_known drawn_key state m)

-- handleEzspRxMessage_EZSP_LAUNCH_STANDALONE_BOOTLOADER.
unfoldable pub handle_launch_bootloader : LibMain → LibMain × List Effect
handle_launch_bootloader m =
    if is_in st_switching_to_bootloader_mode m
    then (m, mode_set bootloader_firmware_upgrade ∷ [])
    else (m, [])

-- The callback that is registered with the sink never asks to be cleared.
abbrev pub keep_callback : SinkState → Bool
keep_callback i_state = true

-- The network is up: the sink is started, and its last state is READY.
unfoldable pub start_sink : LibMain → LibMain × List Effect
unfolding set_state init register_state_callback
start_sink m =
    and_then (set_state st_sink_busy m)
      (λ m'. sink_done (init (register_state_callback keep_callback m'.gp_sink)) m')

unfoldable pub stack_status_known : ℕ → LibMain → LibMain × List Effect
unfolding start_sink
stack_status_known status m =
    if is_in st_leave_nwk_in_progress m
    then (m, [])
    else if (status == ember_network_up) && (m.reset_dot154_channel_at_init == 0)
    then start_sink m
    else if status == 155
    then (m, sends ezsp_get_network_parameters [] ∷ [])
    else (m, sends ezsp_network_state [] ∷ [])

-- handleEzspRxMessage_STACK_STATUS_HANDLER.
unfoldable pub handle_stack_status : List ℕ → LibMain → Ran LibMain
unfolding stack_status_known
handle_stack_status [] m = thrown m []
handle_stack_status (status ∷ rest) m = returned (stack_status_known status m)

-- handleFirmwareXModemXfr.
unfoldable pub handle_firmware_xmodem_xfr : LibMain → LibMain × List Effect
unfolding set_state
handle_firmware_xmodem_xfr m = set_state st_in_xmodem_xfr m

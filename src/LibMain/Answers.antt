-- ===== src/LibMain/Answers.antt =====
-- What one message of the adapter makes of CLibEzspMain (src/ezsp/lib-ezsp-main.cpp) during its start.
use libezsp.Common.{ℕ, ◌≤◌, ◌<◌, ◌≡◌, ◌≢◌, refl, arith, u8}
use libezsp.Common.{false, List, [], ◌∷◌}
use libezsp.Commissioning.{Aes}
use libezsp.Dongle.{ezsp_version}
use libezsp.Effects.{state_of, sink_ready}
use libezsp.EzspEnum.{ezsp_get_xncp_info, ezsp_stack_status_handler, ember_network_up}
use libezsp.EzspEnum.{ezsp_network_state, ezsp_leave_network, ember_no_network}
use libezsp.Networking as Networking
use libezsp.Sink as Sink
use libezsp.Sink.Incoming as Incoming
use libezsp.LibMain.{LibMain, set_state, is_in, absorb, sink_state_changed}
use libezsp.LibMain.{st_getting_ezsp_version, st_getting_xncp_info, st_stack_init, st_ready}
use libezsp.LibMain.{st_form_nwk_in_progress, st_leave_nwk_in_progress, st_terminating}
use libezsp.LibMain.{leave_and_terminate}
use libezsp.LibMain.Init.{Draws, dongle_init, get_xncp_info, compare_version, handle_version}
use libezsp.LibMain.Init.{handle_xncp_info, handle_stack_status, start_sink, stack_status_known}
use libezsp.LibMain.Init.{handle_network_state, network_state_known}
use libezsp.LibMain.Init.{no_network}
use libezsp.Networking.{form_ha_network}
use libezsp.LibMain.Handlers.{handle_main_message, handle_messaging, handle_networking}
use libezsp.LibMain.Handlers.{handle_sink, handle_ezsp_rx_message}
use libezsp.LibMain.Negotiation.{Received}
use libezsp.LibMain.Commands.{Command, commands, commands-append, Gives}
use libezsp.Common.{Bool, if◌then◌else◌, ◌++◌, ◌∙◌, ap}
use mathlib.Core.List.{append-nil}
use libezsp.Effects.{state_told, uninitialized}
use libezsp.LibMain.Init.{xncp_data}
use libezsp.LibMain.Config.{stack_init_commands}
use libezsp.EzspEnum.{ezsp_gp_sink_table_init, ezsp_get_network_parameters}

-- The state after a message.
abbrev pub after_message : Aes → Draws → ℕ → List ℕ → LibMain → LibMain
after_message aes draws cmd msg m = state_of (handle_ezsp_rx_message aes draws cmd msg m)

-- A message, with the draws of the random engine at it.
abbrev pub received : Draws → ℕ → List ℕ → Received
received draws cmd msg = record { draws = draws; cmd = cmd; msg = msg }

-- What the sink sends when it is started.
abbrev pub sink_commands : List Command
sink_commands = (ezsp_gp_sink_table_init, []) ∷ (ezsp_get_network_parameters, []) ∷ []

abbrev pub version_message : ℕ → ℕ → ℕ → List ℕ
version_message v s0 s1 = v ∷ 2 ∷ s0 ∷ s1 ∷ []

-- A network is formed on the channel asked for, which is then forgotten.
abbrev pub formed_network : LibMain → LibMain
formed_network m = record m {
  lib_state = st_form_nwk_in_progress;
  zb_nwk = record (m.zb_nwk) { form_channel = u8 m.reset_dot154_channel_at_init };
  reset_dot154_channel_at_init = 0;
}

no_command : (b : Bool) → commands (if b then state_told uninitialized ∷ [] else []) ≡ []
no_command b = ground arith

xncp_quiet :
    (msg : List ℕ) (m : LibMain) → commands (xncp_data msg ++ (set_state st_stack_init m).1) ≡ []
unfolding xncp_data set_state
xncp_quiet (status ∷ m0 ∷ m1 ∷ v0 ∷ v1 ∷ rest) m = ground (arith, no_command m.has_state_callback)
xncp_quiet [] m = no_command m.has_state_callback
xncp_quiet (a ∷ []) m = no_command m.has_state_callback
xncp_quiet (a ∷ b ∷ []) m = no_command m.has_state_callback
xncp_quiet (a ∷ b ∷ c ∷ []) m = no_command m.has_state_callback
xncp_quiet (a ∷ b ∷ c ∷ d ∷ []) m = no_command m.has_state_callback

module _ (aes : Aes) (draws : Draws) (m : LibMain) where
  -- A supported version that is higher than the expected one is asked for.
  pub higher_version :
      (v s0 s1 : ℕ)
      → m.exp_stack_type ≡ 2
      → m.exp_ezsp_min_version < v
      → v ≤ m.exp_ezsp_max_version
      → Gives aes
          (received draws ezsp_version (version_message v s0 s1))
          m
          (record m { exp_ezsp_min_version = v; lib_state = st_getting_ezsp_version })
          ((ezsp_version, v ∷ []) ∷ [])
  unfolding handle_ezsp_rx_message handle_main_message handle_messaging handle_networking
      handle_sink handle_version compare_version dongle_init set_state absorb
      Networking.handle_ezsp_rx_message Incoming.handle_ezsp_rx_message
  higher_version v s0 s1 same_type lt le = ground arith

  pub same_version :
      (s0 s1 : ℕ)
      → m.exp_stack_type ≡ 2
      → m.exp_ezsp_min_version ≤ m.exp_ezsp_max_version
      → Gives aes
          (received draws ezsp_version (version_message m.exp_ezsp_min_version s0 s1))
          m
          (record m { lib_state = st_getting_xncp_info })
          ((ezsp_get_xncp_info, []) ∷ [])
  unfolding handle_ezsp_rx_message handle_main_message handle_messaging handle_networking
      handle_sink handle_version compare_version get_xncp_info set_state absorb
      Networking.handle_ezsp_rx_message Incoming.handle_ezsp_rx_message
  same_version s0 s1 same_type le = ground arith

  pub xncp_info :
      (msg : List ℕ)
      → Gives aes
          (received draws ezsp_get_xncp_info msg)
          m
          (record m { lib_state = st_stack_init })
          (commands stack_init_commands)
  unfolding handle_ezsp_rx_message handle_main_message handle_messaging handle_networking
      handle_sink handle_xncp_info set_state absorb Networking.handle_ezsp_rx_message
      Incoming.handle_ezsp_rx_message
  xncp_info msg =
      let sent = (xncp_data msg ++ (set_state st_stack_init m).1) ++ stack_init_commands in
      (
        refl,
        ap commands (append-nil ((sent ++ []) ++ []) ∙ append-nil (sent ++ []) ∙ append-nil sent)
            ∙ commands-append (xncp_data msg ++ (set_state st_stack_init m).1) stack_init_commands
            ∙ ap (λ cs. cs ++ commands stack_init_commands) (xncp_quiet msg m),
      )

  -- The network is up and no other channel is asked for: the sink is started.
  pub network_up :
      m.reset_dot154_channel_at_init ≡ 0
      → is_in st_leave_nwk_in_progress m ≡ false
      → let m' = after_message aes draws ezsp_stack_status_handler (ember_network_up ∷ []) m in
        Gives aes
          (received draws ezsp_stack_status_handler (ember_network_up ∷ []))
          m
          m'
          sink_commands
        × (m'.lib_state ≡ st_ready)
        × (m'.gp_sink.sink_state ≡ sink_ready)
  unfolding handle_ezsp_rx_message handle_main_message handle_messaging handle_networking
      handle_sink handle_stack_status stack_status_known start_sink set_state absorb
      sink_state_changed Sink.init Sink.set_sink_state Sink.register_state_callback
      Networking.handle_ezsp_rx_message Incoming.handle_ezsp_rx_message
  network_up no_reset stays = ground arith

  -- No network, and a channel to form one on.
  pub forms_network :
      m.lib_state ≡ st_stack_init
      → m.reset_dot154_channel_at_init ≢ 0
      → m.reset_dot154_channel_at_init ≢ leave_and_terminate
      → Gives aes (received draws ezsp_network_state (ember_no_network ∷ [])) m (formed_network m) (
          commands
            (form_ha_network draws.network_key (u8 m.reset_dot154_channel_at_init) m.zb_nwk).1)
  unfolding handle_ezsp_rx_message handle_main_message handle_messaging handle_networking
      handle_sink handle_network_state network_state_known no_network form_ha_network set_state
      absorb Networking.handle_ezsp_rx_message Incoming.handle_ezsp_rx_message
  forms_network st some_channel not_leaving = ground arith

  -- A network that is to be left.
  pub leaves_network :
      (state : ℕ)
      → m.lib_state ≡ st_stack_init
      → m.reset_dot154_channel_at_init ≢ 0
      → state ≢ ember_no_network
      → Gives aes
          (received draws ezsp_network_state (state ∷ []))
          m
          (record m { lib_state = st_leave_nwk_in_progress })
          ((ezsp_leave_network, []) ∷ [])
  unfolding handle_ezsp_rx_message handle_main_message handle_messaging handle_networking
      handle_sink handle_network_state network_state_known set_state absorb
      Networking.handle_ezsp_rx_message Incoming.handle_ezsp_rx_message
  leaves_network state st some_channel joined = ground arith

  -- While the network is left, the stack's status is ignored.
  pub ignores_status :
      (status : ℕ)
      → m.lib_state ≡ st_leave_nwk_in_progress
      → Gives aes (received draws ezsp_stack_status_handler (status ∷ [])) m m []
  unfolding handle_ezsp_rx_message handle_main_message handle_messaging handle_networking
      handle_sink handle_stack_status stack_status_known absorb Networking.handle_ezsp_rx_message
      Incoming.handle_ezsp_rx_message
  ignores_status status st = ground arith

  pub has_left :
      (status : ℕ)
      → Gives aes
          (received draws ezsp_leave_network (status ∷ []))
          m
          (record m { lib_state = st_stack_init })
          []
  unfolding handle_ezsp_rx_message handle_main_message handle_messaging handle_networking
      handle_sink set_state absorb Networking.handle_ezsp_rx_message Incoming.handle_ezsp_rx_message
  has_left status = ground arith

  -- The end where the network was only to be left.
  terminates :
      m.lib_state ≡ st_stack_init
      → m.reset_dot154_channel_at_init ≡ leave_and_terminate
      → (after_message aes draws ezsp_network_state (ember_no_network ∷ []) m).lib_state
        ≡ st_terminating
  unfolding handle_ezsp_rx_message handle_main_message handle_messaging handle_networking
      handle_sink handle_network_state network_state_known no_network set_state absorb
      Networking.handle_ezsp_rx_message Incoming.handle_ezsp_rx_message
  terminates st leaving = ground arith

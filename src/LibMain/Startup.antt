-- ===== src/LibMain/Startup.antt =====
-- The start of CLibEzspMain (src/ezsp/lib-ezsp-main.cpp) with an adapter that answers: from the first
-- sign of the adapter to READY, and how a network is left and formed.
use libezsp.Common.{ℕ, ◌≤◌, ◌<◌, ◌≡◌, refl, arith, ltb, if◌then◌else◌}
use libezsp.Common.{List, [], ◌∷◌}
use libezsp.Common.{Bool-cases, inl, inr, sym}
use mathlib.Core.Path.{subst}
use libezsp.Commissioning.{Aes}
use libezsp.Dongle.{ezsp_version, dongle_ready}
use libezsp.Effects.{sink_ready}
use libezsp.EzspEnum.{ezsp_get_xncp_info, ezsp_stack_status_handler, ember_network_up}
use libezsp.EzspEnum.{ezsp_network_state, ezsp_leave_network, ember_no_network}
use libezsp.LibMain.{LibMain, set_state}
use libezsp.LibMain.{st_getting_ezsp_version, st_getting_xncp_info, st_stack_init, st_ready}
use libezsp.LibMain.{st_wait_dongle_ready}
use libezsp.LibMain.Init.{Draws, dongle_init}
use libezsp.LibMain.Init.{handle_dongle_state}
use libezsp.LibMain.Negotiation.{Received, handle_messages}
use libezsp.LibMain.Answers.{after_message, version_message}
use libezsp.LibMain.Answers.{higher_version, same_version, xncp_info, network_up}
use libezsp.Common.{◌++◌, ap, ◌∙◌}
use libezsp.LibMain.Config.{stack_init_commands}
use libezsp.LibMain.Commands.{Command, commands, answered, answered-cons}
use libezsp.LibMain.Answers.{received, sink_commands}

abbrev pub up_message : Draws → List Received
up_message draws = received draws ezsp_stack_status_handler (ember_network_up ∷ []) ∷ []

abbrev pub last_answers : Draws → ℕ → ℕ → ℕ → List ℕ → List Received
last_answers draws v s0 s1 xncp =
    received draws ezsp_version (version_message v s0 s1)
    ∷ received draws ezsp_get_xncp_info xncp
    ∷ up_message draws

abbrev pub IsStarted : LibMain → Type 0
IsStarted m = (m.lib_state ≡ st_ready) × (m.gp_sink.sink_state ≡ sink_ready)

-- What the library asks for once the version is agreed on: the manufacturer's data, the settings of
-- the stack, and what the sink needs.
abbrev pub last_commands : List Command
last_commands = (ezsp_get_xncp_info, []) ∷ (commands stack_init_commands ++ sink_commands)

-- Messages start the library, which gives the commands that are listed.
abbrev Starts : Aes → List Received → LibMain → List Command → Type 0
Starts aes rs m cs = (m' : LibMain) × (answered aes rs m ≡ (m', cs)) × IsStarted m'

last_answers_lem :
    (aes : Aes) (draws : Draws) (s0 s1 : ℕ) (xncp : List ℕ) (m : LibMain)
    → m.exp_stack_type ≡ 2
    → m.exp_ezsp_min_version ≤ m.exp_ezsp_max_version
    → m.reset_dot154_channel_at_init ≡ 0
    → Starts aes (last_answers draws m.exp_ezsp_min_version s0 s1 xncp) m last_commands
unfolding handle_messages
last_answers_lem aes draws s0 s1 xncp m same_type le no_reset =
    let m₁ : LibMain = record m { lib_state = st_getting_xncp_info } in
    let m₂ : LibMain = record m { lib_state = st_stack_init } in
    let (gives, is_ready, sink_is_ready) = network_up aes draws m₂ no_reset refl in
    let up = after_message aes draws ezsp_stack_status_handler (ember_network_up ∷ []) m₂ in
    (
      up,
      answered-cons aes _ (received draws ezsp_get_xncp_info xncp ∷ up_message draws) m m₁ up _ _
          (same_version aes draws m s0 s1 same_type le)
          (answered-cons aes _ (up_message draws) m₁ m₂ up _ _ (xncp_info aes draws m₁ xncp)
            (answered-cons aes _ [] m₂ up up _ [] gives refl)),
      (is_ready, sink_is_ready),
    )

-- What an adapter of EZSP version `v` answers during a start, its network being up: each EZSP_VERSION
-- is answered, and the version is asked for again where it is above the expected one.
abbrev pub startup_answers : Draws → ℕ → ℕ → ℕ → List ℕ → LibMain → List Received
startup_answers draws v s0 s1 xncp m =
    if ltb m.exp_ezsp_min_version v
    then received draws ezsp_version (version_message v s0 s1) ∷ last_answers draws v s0 s1 xncp
    else last_answers draws v s0 s1 xncp

-- What the library asks for meanwhile.
abbrev pub startup_commands : ℕ → LibMain → List Command
startup_commands v m =
    if ltb m.exp_ezsp_min_version v then (ezsp_version, v ∷ []) ∷ last_commands else last_commands

higher_answers_lem :
    (aes : Aes) (draws : Draws) (v s0 s1 : ℕ) (xncp : List ℕ) (m : LibMain)
    → m.exp_stack_type ≡ 2
    → m.exp_ezsp_min_version < v
    → v ≤ m.exp_ezsp_max_version
    → m.reset_dot154_channel_at_init ≡ 0
    → Starts aes
        (received draws ezsp_version (version_message v s0 s1) ∷ last_answers draws v s0 s1 xncp)
        m
        ((ezsp_version, v ∷ []) ∷ last_commands)
higher_answers_lem aes draws v s0 s1 xncp m same_type lt le no_reset =
    let m₁ : LibMain = record m { exp_ezsp_min_version = v; lib_state = st_getting_ezsp_version } in
    let (m', rest, started) = last_answers_lem aes draws s0 s1 xncp m₁ same_type le no_reset in
    (
      m',
      answered-cons aes _ (last_answers draws v s0 s1 xncp) m m₁ m' _ _
          (higher_version aes draws m v s0 s1 same_type lt le) rest,
      started,
    )

answers_lem :
    (aes : Aes) (draws : Draws) (v s0 s1 : ℕ) (xncp : List ℕ) (m : LibMain)
    → m.exp_stack_type ≡ 2
    → m.exp_ezsp_min_version ≤ v
    → v ≤ m.exp_ezsp_max_version
    → m.reset_dot154_channel_at_init ≡ 0
    → Starts aes (startup_answers draws v s0 s1 xncp m) m (startup_commands v m)
answers_lem aes draws v s0 s1 xncp m same_type le le' no_reset =
    elim (Bool-cases (ltb m.exp_ezsp_min_version v)) [
      | inl e ↦
          subst
            (λ b.
              Starts aes
                (if b
                  then received draws ezsp_version (version_message v s0 s1)
                    ∷ last_answers draws v s0 s1 xncp
                  else last_answers draws v s0 s1 xncp)
                m (if b then (ezsp_version, v ∷ []) ∷ last_commands else last_commands))
            (sym e)
            (higher_answers_lem aes draws v s0 s1 xncp m same_type (ground arith) le' no_reset)
      | inr e ↦
          let same : m.exp_ezsp_min_version ≡ v = ground arith in
          subst
            (λ b.
              Starts aes
                (if b
                  then received draws ezsp_version (version_message v s0 s1)
                    ∷ last_answers draws v s0 s1 xncp
                  else last_answers draws v s0 s1 xncp)
                m (if b then (ezsp_version, v ∷ []) ∷ last_commands else last_commands))
            (sym e)
            (subst (λ w. Starts aes (last_answers draws w s0 s1 xncp) m last_commands) same
              (last_answers_lem aes draws s0 s1 xncp m same_type (omega arith) no_reset))
    ]

asks_version :
    (m : LibMain)
    → m.lib_state ≡ st_wait_dongle_ready
    → let (asked, es) = handle_dongle_state dongle_ready m in
      (asked ≡ record m { lib_state = st_getting_ezsp_version })
      × (commands es ≡ (ezsp_version, m.exp_ezsp_min_version ∷ []) ∷ [])
unfolding handle_dongle_state dongle_init set_state
asks_version m waits = ground arith

-- An adapter that becomes ready while the library waits for it is asked for its version, by one
-- EZSP_VERSION with the expected one; where its stack is a mesh (type 2), its EZSP version is one that
-- the library supports and its network is up, its answers to the version (two where its version is
-- above the expected one) and to the manufacturer's data, whatever they are, and the notice of the
-- network bring the library and its sink to READY. The commands that the library gives meanwhile are
-- the second EZSP_VERSION where the version is above the expected one, EZSP_GET_XNCP_INFO, those that
-- set up the stack and the two of the sink, in this order. No reset of the network is asked for.
pub startup_reaches_ready :
    (aes : Aes) (draws : Draws) (v s0 s1 : ℕ) (xncp : List ℕ) (m : LibMain)
    → m.lib_state ≡ st_wait_dongle_ready
    → m.exp_stack_type ≡ 2
    → m.exp_ezsp_min_version ≤ v
    → v ≤ m.exp_ezsp_max_version
    → m.reset_dot154_channel_at_init ≡ 0
    → let (asked, es) = handle_dongle_state dongle_ready m in
      let (started, cs) = answered aes (startup_answers draws v s0 s1 xncp m) asked in
      (asked.lib_state ≡ st_getting_ezsp_version)
      × (commands es ≡ (ezsp_version, m.exp_ezsp_min_version ∷ []) ∷ [])
      × IsStarted started
      × (cs ≡ startup_commands v m)
startup_reaches_ready aes draws v s0 s1 xncp m waits same_type le le' no_reset =
    let asked : LibMain = record m { lib_state = st_getting_ezsp_version } in
    let (state, request) = asks_version m waits in
    let (m', out, started) = answers_lem aes draws v s0 s1 xncp asked same_type le le' no_reset in
    let answers = startup_answers draws v s0 s1 xncp m in
    (
      ap (λ n. n.lib_state) state,
      request,
      subst (λ n. IsStarted (answered aes answers n).0) (sym state)
          (subst (λ p. IsStarted p.0) (sym out) started),
      ap (λ n. (answered aes answers n).1) state ∙ ap (λ p. p.1) out,
    )

-- The adapter says what it is in, and a status while it leaves.
abbrev pub leaving_messages : Draws → ℕ → ℕ → List Received
leaving_messages draws state told =
    received draws ezsp_network_state (state ∷ [])
    ∷ received draws ezsp_stack_status_handler (told ∷ [])
    ∷ []

-- It has left, and says that there is no network.
abbrev pub left_messages : Draws → ℕ → List Received
left_messages draws left =
    received draws ezsp_leave_network (left ∷ [])
    ∷ received draws ezsp_network_state (ember_no_network ∷ [])
    ∷ []

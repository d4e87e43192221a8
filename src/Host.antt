-- ===== src/Host.antt =====
-- The library and the dongle together (src/ezsp/lib-ezsp-main.cpp over src/ezsp/ezsp-dongle.cpp): a
-- message that the dongle receives is handed to the observers as the last thing that the dongle does
-- with it, and what they ask of the dongle is done in the order of their calls.
pub mod Link
pub mod Connecting
pub mod Safe
pub mod Events
use libezsp.Common.{ℕ, ◌≤◌, refl, arith, not, if◌then◌else◌, List, [], ◌∷◌, All, length}
use libezsp.Common.{Option, none, some}
use libezsp.Commissioning.{Aes}
use libezsp.Effects.{Effect, sends, stack_version_fetched, ezsp_version_fetched, xncp_fetched}
use libezsp.Effects.{mode_set, state_told, sink_state_told, child_found, key_told}
use libezsp.Effects.{energy_scan_told, active_scan_told, gp_frame_told, gpd_id_told}
use libezsp.Effects.{Ran, ran, thrown, effects_of, state_of}
use libezsp.Dongle.{EzspDongle, send_command, set_mode, set_fetched_stack_version, may_use_ezsp}
use libezsp.Dongle.{set_fetched_ezsp_version_data, set_fetched_xncp_data}
use libezsp.Dongle.Receive.{parse_ezsp, deliver}
use libezsp.Dongle.Well.{IsWell, IsKept, send_command-IsWell}
use libezsp.Dongle.Calls.{same_core-IsWell, set_mode-IsWell, then-IsKept, deliver-IsWell}
use libezsp.LibMain.{LibMain}
use libezsp.LibMain.Init.{Draws}
use libezsp.LibMain.Handlers.{handle_ezsp_rx_message}
use libezsp.LibMain.Steps.{IsShort, IsSound, Step-IsSound}
use libezsp.LibMain.StepInit.{IsStepRan}
use libezsp.LibMain.Negotiation.{handle_ezsp_rx_message-Step}

-- What an effect does to the dongle; `none` where a frame is never forged.
abbrev pub apply_effect : Effect → EzspDongle → Option EzspDongle
apply_effect (sends cmd payload) d = send_command cmd payload d
apply_effect (stack_version_fetched v) d = some (set_fetched_stack_version v d)
apply_effect (ezsp_version_fetched v protocol stack_type) d =
    some (set_fetched_ezsp_version_data v protocol stack_type d)
apply_effect (xncp_fetched manufacturer version) d =
    some (set_fetched_xncp_data manufacturer version d)
apply_effect (mode_set mode) d = some (set_mode mode d)
apply_effect _ d = some d

unfoldable pub apply_effects : List Effect → EzspDongle → Option EzspDongle
apply_effects [] d = some d
apply_effects (e ∷ es) d = elim (apply_effect e d) [ none ↦ none | some d' ↦ apply_effects es d' ]

pub record Host : Type 0 where
  pub main : LibMain
  pub dongle : EzspDongle

-- Where an observer throws, the state is the one that it leaves.
unfoldable pub perform : Ran LibMain → EzspDongle → Option Host
unfolding apply_effects
perform r d = elim (apply_effects (effects_of r) d) [
  | none ↦ none
  | some d' ↦ some (record { main = state_of r; dongle = d' })
]

unfoldable pub notify_observers_of_ezsp_rx_message : Aes → Draws → ℕ → List ℕ → Host → Option Host
unfolding perform
notify_observers_of_ezsp_rx_message aes draws cmd params h = elim (deliver cmd params h.dongle) [
  | none ↦ none
  | some d ↦ perform (handle_ezsp_rx_message aes draws cmd params h.main) d
]

-- CEzspDongle::handleInputData with its observers.
unfoldable pub receive_message : Aes → Draws → List ℕ → Host → Option Host
unfolding notify_observers_of_ezsp_rx_message
receive_message aes draws data_in h =
    if not (may_use_ezsp h.dongle.last_known_mode)
    then some h
    else elim (parse_ezsp h.dongle.version data_in) [
      | none ↦ some h
      | some m ↦ notify_observers_of_ezsp_rx_message aes draws m.0 m.1 h
    ]

unfoldable pub receive_messages : Aes → List (Draws × List ℕ) → Host → Option Host
unfolding receive_message
receive_messages aes [] h = some h
receive_messages aes (r ∷ rs) h = elim (receive_message aes r.0 r.1 h) [
  | none ↦ none
  | some h' ↦ receive_messages aes rs h'
]

pub record IsWellHost (h : Host) : Type 0 where
  pub main_sound : IsSound h.main
  pub dongle_well : IsWell h.dongle

abbrev pub IsKeptHost : Option Host → Type 0
IsKeptHost none = ⊥
IsKeptHost (some h) = IsWellHost h

apply_effect-IsWell :
    (e : Effect) (d : EzspDongle) → IsShort e → IsWell d → IsKept (apply_effect e d)
unfolding set_fetched_stack_version set_fetched_ezsp_version_data set_fetched_xncp_data
apply_effect-IsWell (sends cmd payload) d h w = send_command-IsWell cmd payload d h w
apply_effect-IsWell (stack_version_fetched v) d h w = same_core-IsWell d _ refl refl refl refl w
apply_effect-IsWell (ezsp_version_fetched v p t) d h w = same_core-IsWell d _ refl refl refl refl w
apply_effect-IsWell (xncp_fetched i v) d h w = same_core-IsWell d _ refl refl refl refl w
apply_effect-IsWell (mode_set mode) d h w = set_mode-IsWell mode d w
apply_effect-IsWell (state_told p) d h w = w
apply_effect-IsWell (sink_state_told t) d h w = w
apply_effect-IsWell (child_found t e i) d h w = w
apply_effect-IsWell (key_told s key) d h w = w
apply_effect-IsWell (energy_scan_told r) d h w = w
apply_effect-IsWell (active_scan_told r) d h w = w
apply_effect-IsWell (gp_frame_told f) d h w = w
apply_effect-IsWell (gpd_id_told i known s) d h w = w

apply_effects-IsWell :
    (es : List Effect) (d : EzspDongle) → All IsShort es → IsWell d → IsKept (apply_effects es d)
unfolding apply_effects
apply_effects-IsWell [] d hs w = w
apply_effects-IsWell (e ∷ es) d (h, hs) w =
    then-IsKept (apply_effect e d) (apply_effects es) (λ d' w'. apply_effects-IsWell es d' hs w')
      (apply_effect-IsWell e d h w)

applied-IsWell :
    (m : LibMain) (o : Option EzspDongle)
    → IsSound m
    → IsKept o
    → IsKeptHost (elim o [ none ↦ none | some d ↦ some (record { main = m; dongle = d }) ])
applied-IsWell m none i k = k
applied-IsWell m (some d) i w = record { main_sound = i; dongle_well = w }

pub performed-IsWell :
    (m : LibMain) (es : List Effect) (d : EzspDongle)
    → IsSound m
    → All IsShort es
    → IsWell d
    → IsKeptHost (perform (ran m es) d)
unfolding perform
performed-IsWell m es d i short w =
    applied-IsWell m (apply_effects es d) i (apply_effects-IsWell es d short w)

perform-IsWell :
    (m : LibMain) (r : Ran LibMain) (d : EzspDongle)
    → IsStepRan m r
    → IsWell d
    → IsKeptHost (perform r d)
unfolding perform
perform-IsWell m (ran m' es) d s w = performed-IsWell m' es d (Step-IsSound m m' es s) s.short w
perform-IsWell m (thrown m' es) d s w = performed-IsWell m' es d (Step-IsSound m m' es s) s.short w

delivered-IsWell :
    (m : LibMain) (r : Ran LibMain) (o : Option EzspDongle)
    → IsStepRan m r
    → IsKept o
    → IsKeptHost (elim o [ none ↦ none | some d ↦ perform r d ])
delivered-IsWell m r none s k = k
delivered-IsWell m r (some d) s w = perform-IsWell m r d s w

pub notify_observers_of_ezsp_rx_message-IsWell :
    (aes : Aes) (draws : Draws) (cmd : ℕ) (params : List ℕ) (h : Host)
    → length draws.network_key ≤ 16
    → IsWellHost h
    → IsKeptHost (notify_observers_of_ezsp_rx_message aes draws cmd params h)
unfolding notify_observers_of_ezsp_rx_message
notify_observers_of_ezsp_rx_message-IsWell aes draws cmd params h k w =
    delivered-IsWell h.main (handle_ezsp_rx_message aes draws cmd params h.main)
      (deliver cmd params h.dongle)
      (handle_ezsp_rx_message-Step aes draws cmd params h.main k w.main_sound)
      (deliver-IsWell cmd params h.dongle w.dongle_well)

parsed-IsWell :
    (o : Option (ℕ × List ℕ)) (aes : Aes) (draws : Draws) (h : Host)
    → length draws.network_key ≤ 16
    → IsWellHost h
    → IsKeptHost (elim o [
      | none ↦ some h
      | some m ↦ notify_observers_of_ezsp_rx_message aes draws m.0 m.1 h
    ])
parsed-IsWell none aes draws h k w = w
parsed-IsWell (some m) aes draws h k w =
    notify_observers_of_ezsp_rx_message-IsWell aes draws m.0 m.1 h k w

pub receive_message-IsWell :
    (aes : Aes) (draws : Draws) (data_in : List ℕ) (h : Host)
    → length draws.network_key ≤ 16
    → IsWellHost h
    → IsKeptHost (receive_message aes draws data_in h)
unfolding receive_message
receive_message-IsWell aes draws data_in h k w =
    ground (arith, w, parsed-IsWell (parse_ezsp h.dongle.version data_in) aes draws h k w)

abbrev pub DrawnKeys : List (Draws × List ℕ) → Type 0
DrawnKeys rs = All (λ r. length r.0.network_key ≤ 16) rs

pub next-IsWell :
    (o : Option Host) (f : Host → Option Host)
    → IsKeptHost o
    → ((h : Host) → IsWellHost h → IsKeptHost (f h))
    → IsKeptHost (elim o [ none ↦ none | some h ↦ f h ])
next-IsWell none f k g = k
next-IsWell (some h) f k g = g h k

-- Whatever messages the dongle receives, one after the other, the dongle and the four observers deal
-- with them to the end: no frame is refused, and what holds of the dongle between two calls still
-- holds, together with the bounds of the library's expected EZSP version and of the keys in its sink.
-- Each network key that is drawn has at most 16 bytes.
pub receive_messages-IsWell :
    (aes : Aes) (rs : List (Draws × List ℕ)) (h : Host)
    → DrawnKeys rs
    → IsWellHost h
    → IsKeptHost (receive_messages aes rs h)
unfolding receive_messages
receive_messages-IsWell aes [] h ks w = w
receive_messages-IsWell aes (r ∷ rs) h (k, ks) w =
    next-IsWell (receive_message aes r.0 r.1 h) (receive_messages aes rs)
      (receive_message-IsWell aes r.0 r.1 h k w) (λ h' w'. receive_messages-IsWell aes rs h' ks w')

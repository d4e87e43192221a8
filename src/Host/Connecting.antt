-- ===== src/Host/Connecting.antt =====
-- What the library does when the link comes up: CEzspDongle::ashCbInfo (src/ezsp/ezsp-dongle.cpp) and
-- CLibEzspMain::handleDongleState (src/ezsp/lib-ezsp-main.cpp).
use libezsp.Common.{ℕ, ◌≡◌, ◌∙◌, refl, ap, arith, true, false, List, [], ◌∷◌, ◌++◌, some}
use libezsp.Common.{if_true}
use libezsp.Ash.Codec.{AshCodec, ash_state_connected, forge_data_frame}
use libezsp.Driver.Send.{can_write, accepts}
use libezsp.Dongle.{
  EzspDongle, Msg, DongleState, dongle_ready, ezsp_ncp, ezsp_version, ezsp_message,
}
use libezsp.Dongle.{may_use_ezsp, notify_observers_of_dongle_state, send_command}
use libezsp.Dongle as Dongle
use libezsp.Dongle.Link.{send_command_idle}
use libezsp.Effects.{ran}
use libezsp.LibMain.{LibMain, set_state, st_wait_dongle_ready, st_getting_ezsp_version}
use libezsp.LibMain.Init.{handle_dongle_state, dongle_init}
use libezsp.Host.{Host, perform, apply_effects}
use libezsp.Host.Link.{host_ash_info, now_ezsp, with_dongle}

-- EZSP_VERSION with the version that the library expects.
abbrev pub version_request : LibMain → Msg
version_request m = record { cmd = ezsp_version; payload = m.exp_ezsp_min_version ∷ [] }

-- The dongle when its observers have been told.
abbrev told_ready : EzspDongle → EzspDongle
told_ready d = notify_observers_of_dongle_state (Dongle.handle_dongle_state dongle_ready) d

asked_lem :
    (m : LibMain) (d : EzspDongle)
    → m.lib_state ≡ st_wait_dongle_ready
    → perform (ran (handle_dongle_state dongle_ready m).0 (handle_dongle_state dongle_ready m).1) d
      ≡ with_dongle
          (record m { lib_state = st_getting_ezsp_version })
          (send_command ezsp_version (m.exp_ezsp_min_version ∷ []) d)
unfolding perform apply_effects handle_dongle_state dongle_init set_state
asked_lem m d waits = ground arith

-- When the link comes up while the library waits for it, and nothing else is under way in the dongle,
-- the dongle writes one frame, which asks for the version that the library expects, waits for the
-- answer exactly if the port took the whole frame, and is in EZSP mode; the library waits for the
-- version.
pub connected_asks_version :
    (h : Host) (codec : AshCodec) (frame : List ℕ)
    → h.main.lib_state ≡ st_wait_dongle_ready
    → may_use_ezsp h.dongle.last_known_mode ≡ true
    → h.dongle.wait_rsp ≡ false
    → h.dongle.sending_msg_queue ≡ []
    → can_write h.dongle.ash ≡ true
    → forge_data_frame h.dongle.ash.ash_codec
        (ezsp_message h.dongle.version h.dongle.ezsp_seq_num (version_request h.main))
      ≡ some (codec, frame)
    → (h' : Host) × (host_ash_info ash_state_connected h ≡ some h')
      × (h'.main.lib_state ≡ st_getting_ezsp_version)
      × (h'.dongle.ash.sent ≡ h.dongle.ash.sent ++ (frame ∷ []))
      × (h'.dongle.sending_msg_queue ≡ version_request h.main ∷ [])
      × (h'.dongle.wait_rsp ≡ accepts h.dongle.ash frame)
      × (h'.dongle.last_known_mode ≡ ezsp_ncp)
unfolding host_ash_info
connected_asks_version h codec frame waits mode idle empty writable forged =
    let asked : LibMain = record (h.main) { lib_state = st_getting_ezsp_version } in
    (
      _,
      ap now_ezsp (
          asked_lem h.main (told_ready h.dongle) waits
          ∙ ap (with_dongle asked) (
              send_command_idle (version_request h.main) (told_ready h.dongle) codec frame mode idle
                empty forged)),
      refl,
      if_true _ writable,
      refl,
      refl,
      refl,
    )

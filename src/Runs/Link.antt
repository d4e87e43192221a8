-- ===== src/Runs/Link.antt =====
-- The library over the link (src/ezsp/lib-ezsp-main.cpp over src/ezsp/ezsp-dongle.cpp) when the link
-- comes up.
use libezsp.Common.{ℕ, ◌≡◌, refl, arith, List, [], ◌∷◌, ◌++◌, some}
use libezsp.Ash.Codec.{
  AshCodec, ash_state_connected, forge_data_frame, data_control_byte, seal_frame,
}
use libezsp.Ash.Codec.Frames.{forge_data_frame_lem}
use libezsp.Ash.Randomize.Laws.{keystream}
use libezsp.Driver.Send.{accepts}
use libezsp.Dongle.{ezsp_ncp, ezsp_message, known_ezsp_protocol_version}
use libezsp.Dongle.{known_ezsp_protocol_version_ge, known_ezsp_protocol_version_lt}
use libezsp.LibMain.{new_lib_ezsp_main, st_wait_dongle_ready, st_getting_ezsp_version}
use libezsp.Host.{Host}
use libezsp.Host.Link.{host_ash_info}
use libezsp.Host.Connecting.{version_request, connected_asks_version}
use libezsp.Runs.Adapter.{dongle}

abbrev waiting_host : Host
waiting_host = record {
  main = record (new_lib_ezsp_main 0) { lib_state = st_wait_dongle_ready };
  dongle = dongle;
}

-- EZSP_VERSION with version 6, under the sequence number 7.
abbrev message : List ℕ
message = 7 ∷ 0 ∷ 1 ∷ 0 ∷ 0 ∷ 6 ∷ []

abbrev frame : List ℕ
frame = seal_frame (data_control_byte dongle.ash.ash_codec ∷ keystream 0x42 message)

abbrev next_codec : AshCodec
next_codec = record (dongle.ash.ash_codec) { frm_num = 1; next_expected_fe_ack_num = 1 }

forged : forge_data_frame dongle.ash.ash_codec message ≡ some (next_codec, frame)
forged = forge_data_frame_lem dongle.ash.ash_codec message (omega arith)

connected_asks_version_example :
    (h' : Host) × (host_ash_info ash_state_connected waiting_host ≡ some h')
    × (h'.main.lib_state ≡ st_getting_ezsp_version)
    × (h'.dongle.ash.sent ≡ dongle.ash.sent ++ (frame ∷ []))
    × (h'.dongle.sending_msg_queue ≡ version_request waiting_host.main ∷ [])
    × (h'.dongle.wait_rsp ≡ accepts dongle.ash frame)
    × (h'.dongle.last_known_mode ≡ ezsp_ncp)
unfolding ezsp_message known_ezsp_protocol_version_ge known_ezsp_protocol_version_lt
    known_ezsp_protocol_version new_lib_ezsp_main
connected_asks_version_example =
    connected_asks_version waiting_host next_codec frame refl refl refl refl refl forged

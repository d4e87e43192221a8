-- ===== src/Runs/Adapter.antt =====
-- AshDriver and CEzspDongle (src/ezsp/ash-driver.cpp, src/ezsp/ezsp-dongle.cpp) on short runs.
use libezsp.Common.{
  ℕ, ◌≡◌, ◌≤◌, refl, arith, true, false, List, [], ◌∷◌, length, some, none, if◌then◌else◌,
}
use libezsp.Ash.Codec.{AshCodec, forge_data_frame, data_control_byte, seal_frame}
use libezsp.Ash.Codec.{ash_nack}
use libezsp.Ash.Codec.Decode.{Progress, ok, append_incoming}
use libezsp.Ash.Codec.Valid.{IsValid}
use libezsp.Ash.Codec.Frames.{forge_data_frame_lem, length-seal_frame_le}
use libezsp.Ash.Randomize.Laws.{keystream, length-keystream}
use libezsp.Driver.{AshDriver, WriteFunc, t_rx_ack_init}
use libezsp.Driver.Send.{accepts}
use libezsp.Driver.Receive.{Watched, watched_input, summary, handle_input_data-summary}
use libezsp.BootloaderPrompt.{BootloaderPromptDriver, new_bootloader_prompt_driver}
use libezsp.AdapterVersion.{EzspAdapterVersion}
use libezsp.Dongle.{known_ezsp_protocol_version, known_ezsp_protocol_version_ge}
use libezsp.Dongle.{known_ezsp_protocol_version_lt, bootloader_firmware_upgrade}
use libezsp.Dongle.{EzspDongle, Msg, ezsp_ncp, send_command, ezsp_message}
use libezsp.Dongle.Receive.{parse_ezsp, receive_serial}
use libezsp.Dongle.Well.{IsWell}
use libezsp.Dongle.Survives.{IsSafe, receive_serial-IsSafe}
use libezsp.Dongle.Fifo.{
  command, response, link_info, change_mode, Call, perform_all, EndsWith, perform_all-fifo,
}
use libezsp.Dongle.Link.{send_command_idle, command_arrives}

-- A port that takes every frame whole.
abbrev port : WriteFunc
port before frame = record { failed = false; written_cnt = length frame }

abbrev codec : AshCodec
codec = record {
  next_expected_fe_ack_num = 0;
  frm_num = 0;
  last_received_by_ne_ack_num = 0;
  state_connected = true;
  in_msg = [];
  has_cb = true;
  has_ack_timer_cancel_func = true;
}

abbrev driver : AshDriver
driver = record {
  enabled = true;
  ack_timer = none;
  ash_codec = codec;
  serial_write_func = some port;
  sent = [];
}

abbrev prompt : BootloaderPromptDriver
prompt = new_bootloader_prompt_driver

abbrev version_8 : EzspAdapterVersion
version_8 = record {
  ezsp_protocol_version = 8;
  ezsp_stack_type = 2;
  ezsp_stack_major_version = 6;
  ezsp_stack_minor_version = 7;
  ezsp_stack_revision_version = 0;
  ezsp_stack_bugfix_version = 0;
  xncp_manufacturer_id = 0;
  xncp_adapter_hardware_version = 0;
  xncp_adapter_major_version = 0;
  xncp_adapter_minor_version = 0;
  xncp_adapter_revision_version = 0;
}

abbrev version_unknown : EzspAdapterVersion
version_unknown = record version_8 { ezsp_protocol_version = 0 }

-- An adapter in EZSP mode that waits for nothing.
abbrev pub dongle : EzspDongle
dongle = record {
  first_startup = false;
  version = version_8;
  last_known_mode = ezsp_ncp;
  switch_to_firmware_upgrade_on_init_timeout = false;
  has_uart = true;
  ezsp_seq_num = 7;
  ash = driver;
  blp = prompt;
  sending_msg_queue = [];
  wait_rsp = false;
  told = [];
}

codec-IsValid : IsValid codec
codec-IsValid = ground arith

pub dongle-IsWell : IsWell dongle
dongle-IsWell = record {
  codec_valid = codec-IsValid;
  seq_small = omega arith;
  front_kept = λ waits. cc;
  all_sendable = tt;
}

-- networkState, without parameters.
abbrev network_state : Msg
network_state = record { cmd = 0x18; payload = [] }

abbrev message : List ℕ
message = 7 ∷ 0 ∷ 1 ∷ 0x18 ∷ 0 ∷ []

message_is : ezsp_message version_8 7 network_state ≡ message
unfolding ezsp_message known_ezsp_protocol_version_ge known_ezsp_protocol_version_lt
    known_ezsp_protocol_version
message_is = refl

abbrev frame : List ℕ
frame = seal_frame (data_control_byte codec ∷ keystream 0x42 message)

abbrev next_codec : AshCodec
next_codec = record codec { frm_num = 1; next_expected_fe_ack_num = 1 }

forged : forge_data_frame codec message ≡ some (next_codec, frame)
forged = forge_data_frame_lem codec message (omega arith)

short_frame : length frame ≤ 132
short_frame = omega (
  arith,
  length-seal_frame_le (data_control_byte codec ∷ keystream 0x42 message),
  length-keystream 0x42 message,
)

abbrev watched : Watched
watched = record { driver = driver; told = [] }

handle_input_data-summary_example :
    watched_input (0x7e ∷ 0x18 ∷ 0x25 ∷ 0x7e ∷ []) watched
    ≡ summary (append_incoming (0x7e ∷ 0x18 ∷ 0x25 ∷ 0x7e ∷ []) codec) watched
handle_input_data-summary_example =
    handle_input_data-summary (0x7e ∷ 0x18 ∷ 0x25 ∷ 0x7e ∷ []) watched (ground arith) codec-IsValid
      refl

receive_serial-IsSafe_example : IsSafe (receive_serial (0x25 ∷ 0x7e ∷ 0x18 ∷ 0x7e ∷ []) dongle)
receive_serial-IsSafe_example =
    receive_serial-IsSafe (0x25 ∷ 0x7e ∷ 0x18 ∷ 0x7e ∷ []) dongle (ground arith) dongle-IsWell

-- Two commands, a refusal of the link, the response to the first command and a change of the mode.
abbrev calls : List Call
calls =
    command 0x18 []
    ∷ command 0x26 []
    ∷ link_info ash_nack
    ∷ response 0x18
    ∷ change_mode bootloader_firmware_upgrade
    ∷ []

perform_all-fifo_example :
    EndsWith (record { cmd = 0x26; payload = [] } ∷ []) (perform_all calls dongle)
perform_all-fifo_example =
    perform_all-fifo calls dongle (omega arith, (omega arith, (tt, (tt, (tt, tt))))) dongle-IsWell

abbrev waiting : EzspDongle
waiting = record dongle { sending_msg_queue = network_state ∷ []; wait_rsp = true }

send_command_idle_example :
    send_command 0x18 [] dongle
    ≡ some (record dongle {
      ezsp_seq_num = 8;
      sending_msg_queue = network_state ∷ [];
      wait_rsp = accepts driver frame;
      ash = record driver {
        ack_timer = if accepts driver frame then some t_rx_ack_init else none;
        ash_codec = next_codec;
        sent = frame ∷ [];
      };
    })
unfolding ezsp_message known_ezsp_protocol_version_ge known_ezsp_protocol_version_lt
    known_ezsp_protocol_version
send_command_idle_example =
    send_command_idle network_state dongle next_codec frame refl refl refl forged

command_arrives_example :
    (d' : EzspDongle) × (p : Progress) × (payload : List ℕ) × (send_command 0x18 [] dongle
      ≡ some d')
    × (d'.ash.sent ≡ frame ∷ [])
    × (append_incoming frame codec ≡ ok p)
    × (p.payloads ≡ payload ∷ [])
    × (parse_ezsp version_8 payload ≡ some (0x18, []))
unfolding ezsp_message known_ezsp_protocol_version_ge known_ezsp_protocol_version_lt
    known_ezsp_protocol_version
command_arrives_example =
    command_arrives network_state dongle codec next_codec frame dongle-IsWell (omega arith) tt refl
      refl refl refl refl refl forged short_frame

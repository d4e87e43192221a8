-- ===== src/Runs/GreenPower.antt =====
-- Green Power frames and devices on concrete values: the message integrity code
-- (src/ezsp/zbmessage/green-power-frame.cpp) and a registration
-- (src/ezsp/zigbee-tools/green-power-sink.cpp).
use libezsp.Common.{ℕ, ◌≡◌, ◌==◌, ◌&&◌, refl, arith, true, List, [], ◌∷◌, some, replicate}
use libezsp.ByteManip.{dble_u8_to_u16, quad_u8_to_u32}
use libezsp.Commissioning.{Aes, xor_bytes}
use libezsp.GpFrame.{GpFrame, new_gp_frame}
use libezsp.GpFrame.Mic.{Cipher, validate_mic, compute_nonce, authenticated}
use libezsp.GpFrame.Mic.{word_bytes}
use libezsp.GpFrame.Ccm.{ccm_mic, validate_mic-ccm}
use libezsp.GpStruct.{read_gp_address, read_sink_option}
use libezsp.Structs.SinkEntry.{SinkTableEntry, read_sink_table_entry}
use libezsp.Effects.{sink_ready}
use libezsp.Sink.{GpSink, new_gp_sink, register_gpds, gp_sink_table_find_or_allocate_entry}
use libezsp.Common.{All, none}
use libezsp.DeviceDb.{GpDevice}
use libezsp.Effects.{effects_of}
use libezsp.Sink.Builtin.{CheckingSink, register_checked, remove_checked, checked_incoming_message}
use libezsp.Sink.Genuine.{IsNoFrame}
use libezsp.Sink.Genuine.{checked_requests_ignore_list}
use libezsp.Sink.Registering.{Registration, devices_of, answer_registrations}
use libezsp.Sink.Registering.{
  registered, registrations_commands, register_gpds-answer_registrations,
}
use libezsp.Structs.{byte, bytes_at}

-- A cipher that leaves every block as it is.
abbrev plain_cipher : Cipher
plain_cipher = record {
  encrypt = λ key block. block;
  cbc_encrypt = λ key block iv. (xor_bytes iv block, xor_bytes iv block);
}

abbrev secured_frame : GpFrame
secured_frame = record new_gp_frame {
  source_id = 0x01500001;
  security = 2;
  security_frame_counter = 9;
  command_id = 0x20;
}

abbrev group_key : List ℕ
group_key = replicate 16 1

validate_mic-ccm_example :
    validate_mic plain_cipher group_key secured_frame
    ≡ (secured_frame.security == 2)
      && (secured_frame.application_id == 0)
      && (secured_frame.mic
          == ccm_mic
              (plain_cipher.encrypt group_key)
              (compute_nonce 0x01500001 9)
              (authenticated secured_frame))
unfolding authenticated word_bytes new_gp_frame
validate_mic-ccm_example =
    validate_mic-ccm plain_cipher group_key secured_frame (λ block iv. refl) (omega arith)

abbrev source_id : ℕ
source_id = 0x01500001

-- An empty entry of the sink table, as the adapter sends it.
abbrev empty_entry : SinkTableEntry
empty_entry = record {
  status = 0;
  options = read_sink_option 0;
  gpd = record { application_id = 0; gpd_ieee_address = (0, 0, 0, 0, 0, 0, 0, 0); endpoint = 0 };
  device_id = 0;
  assigned_alias = 0;
  groupcast_radius = 0;
  security_options = 0;
  gpd_security_frame_counter = 0;
  gpd_key = replicate 16 0;
}

abbrev registration : ℕ → ℕ → Registration
registration i_source_id index = record {
  device = record { source_id = i_source_id; key = group_key };
  index = index;
  raw = replicate 60 0;
  entry = empty_entry;
}

empty_entry_is : read_sink_table_entry (replicate 60 0) ≡ some empty_entry
unfolding read_sink_table_entry read_gp_address byte bytes_at dble_u8_to_u16 quad_u8_to_u32
empty_entry_is = refl

abbrev quiet_sink : GpSink
quiet_sink = record new_gp_sink { sink_state = sink_ready }

abbrev no_cipher : Aes
no_cipher key block = block

register_gpds-answer_registrations_example :
    let second = registration 0x01500002 4 in
    let first = registration 0x01500001 3 in
    let (asked, es, accepted) = register_gpds (devices_of (first ∷ second ∷ [])) quiet_sink in
    (accepted ≡ true)
    × (es ≡ gp_sink_table_find_or_allocate_entry 0x01500001 ∷ [])
    × (answer_registrations no_cipher (first ∷ second ∷ []) asked
        ≡ (registered quiet_sink second, registrations_commands (first ∷ second ∷ [])))
unfolding new_gp_sink
register_gpds-answer_registrations_example =
    register_gpds-answer_registrations no_cipher (registration 0x01500001 3)
      (registration 0x01500002 4 ∷ []) quiet_sink refl refl
      ((omega arith, empty_entry_is), ((omega arith, empty_entry_is), tt))

-- A sink in READY whose database knows one device.
abbrev checking_sink : CheckingSink
checking_sink = record {
  sink = record quiet_sink { has_observer = true };
  gp_dev_db = record { source_id = source_id; key = group_key } ∷ [];
}

abbrev new_device : GpDevice
new_device = record { source_id = 0x01500002; key = group_key }

checked_requests_ignore_list_example :
    let (added, es, answer) = register_checked (new_device ∷ []) checking_sink in
    let (removed, es', answer') = remove_checked (source_id ∷ []) checking_sink in
    (added.gp_dev_db ≡ [])
    × (added.sink.gpds_to_register ≡ [])
    × ((c : Cipher) (msg : List ℕ)
        → All IsNoFrame (effects_of (checked_incoming_message c msg added)))
    × (removed.gp_dev_db ≡ checking_sink.gp_dev_db)
    × (answer ≡ none)
    × (answer' ≡ none)
unfolding new_gp_sink
checked_requests_ignore_list_example =
    checked_requests_ignore_list new_device [] source_id [] checking_sink refl refl refl

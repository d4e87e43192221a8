-- ===== src/Runs/Messages.antt =====
-- The message headers and the device database (src/ezsp/zbmessage, src/ezsp/zigbee-tools) on
-- concrete values.
use libezsp.Common.{◌≡◌, arith, true, false, [], ◌∷◌, ◌++◌, some}
use libezsp.Common.{ℕ, refl}
use libezsp.EzspEnum.Names.{ezsp_cmd_to_string, find_name}
use libezsp.EzspEnum.Distinct.{ezsp_cmd_to_string_distinct}
use libezsp.Zcl.{ZclHeader, read_zcl_header, get_zcl_header}
use libezsp.Zcl.RoundTrip.{read-get_zcl_header}
use libezsp.GpStruct.{GpAddress}
use libezsp.DeviceDb.{GpDevice, find, set_db, insert_device, get_key_for_source_id}
use libezsp.DeviceDb.Lookup.{get_key-set_db}
use libezsp.Structs.NetworkParameters.{NetworkParameters, get_network_parameters_raw}
use libezsp.Structs.NetworkParameters.{read_network_parameters}
use libezsp.Structs.NetworkParameters.{read_network_parameters_response}
use libezsp.Structs.RoundTrip.{read-get_network_parameters, early_channels}

abbrev header : ZclHeader
header = record {
  frm_ctrl = record {
    frame_type = 1;
    manufacturer_code_present = false;
    direction = 1;
    disable_default_rsp = true;
    software_code = 0;
  };
  manufacturer_code = 0x1021;
  transaction_number = 3;
  cmd_id = 2;
}

read-get_zcl_header_example :
    read_zcl_header (get_zcl_header header ++ [])
    ≡ some (record header { manufacturer_code = 0 }, 3)
read-get_zcl_header_example = read-get_zcl_header header [] (ground arith) (omega arith)

abbrev device : GpDevice
device = record { source_id = 0x0150; key = 1 ∷ 2 ∷ [] }

abbrev rekeyed : GpDevice
rekeyed = record { source_id = 0x0150; key = 9 ∷ 9 ∷ [] }

get_key-set_db_example :
    (get_key_for_source_id 0x0150 (set_db (device ∷ rekeyed ∷ []) []) ≡ some (1 ∷ 2 ∷ []))
    × (get_key_for_source_id 0x0150 (insert_device rekeyed (set_db (device ∷ rekeyed ∷ []) []))
        ≡ some (1 ∷ 2 ∷ []))
unfolding get_key_for_source_id find
get_key-set_db_example = get_key-set_db (device ∷ rekeyed ∷ []) [] rekeyed 0x0150

abbrev address : GpAddress
address = record { application_id = 0; gpd_ieee_address = (1, 2, 3, 4, 5, 6, 7, 8); endpoint = 1 }

abbrev network : NetworkParameters
network = record {
  extend_pan_id = 0x1122334455667788;
  pan_id = 0x1234;
  radio_tx_power = 8;
  radio_channel = 15;
  join_method = 0;
  nwk_manager_id = 0;
  nwk_update_id = 1;
  channels = 0x07fff800;
}

read-get_network_parameters_example :
    let raw = get_network_parameters_raw network in
    (read_network_parameters raw 0 ≡ some network)
    × (read_network_parameters_response (0 ∷ 1 ∷ raw)
        ≡ some (record {
          status = 0;
          node_type = 1;
          parameters = record network { channels = early_channels network };
        }))
read-get_network_parameters_example =
    read-get_network_parameters network 0 1 (omega arith) (omega arith) (omega arith) (omega arith)
      (omega arith) (omega arith) (omega arith) (omega arith)

-- EZSP_SET_CONFIGURATION_VALUE.
abbrev command : ℕ
command = 0x53

ezsp_cmd_to_string_distinct_example : command ≡ command
unfolding ezsp_cmd_to_string find_name
ezsp_cmd_to_string_distinct_example = ezsp_cmd_to_string_distinct command command (λ e. cc) refl

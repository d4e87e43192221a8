-- ===== src/Zcl.antt =====
-- src/ezsp/zbmessage/zclframecontrol.cpp and zclheader.cpp: the header of a ZCL frame.
pub mod RoundTrip
use libezsp.Common.{ℕ, ◌==◌, ◌!=◌, if◌then◌else◌, bit_and, bit_or, u8, ◌>>>◌, Bool, true, false}
use libezsp.Common.{List, [], ◌∷◌, ◌++◌, Option, none, some, ◌*◌, ◌/◌, ◌^◌, ◌%◌}
use libezsp.ByteManip.{dble_u8_to_u16, u16_get_hi_u8, u16_get_lo_u8}

-- The enumerations are their numbers.
abbrev pub e_frm_type_general : ℕ
e_frm_type_general = 0

abbrev pub e_frm_type_specific : ℕ
e_frm_type_specific = 1

abbrev pub e_dir_client_to_server : ℕ
e_dir_client_to_server = 0

abbrev pub e_dir_server_to_client : ℕ
e_dir_server_to_client = 1

abbrev pub e_sw_code_short : ℕ
e_sw_code_short = 0

abbrev pub e_sw_code_evo2 : ℕ
e_sw_code_evo2 = 1

pub record ZclFrameControl : Type 0 where
  pub frame_type : ℕ
  pub manufacturer_code_present : Bool
  pub direction : ℕ
  pub disable_default_rsp : Bool
  pub software_code : ℕ

unfoldable pub new_zcl_frame_control : ZclFrameControl
new_zcl_frame_control = record {
  frame_type = e_frm_type_specific;
  manufacturer_code_present = true;
  direction = e_dir_client_to_server;
  disable_default_rsp = true;
  software_code = e_sw_code_short;
}

unfoldable pub read_frame_control : ℕ → ZclFrameControl
read_frame_control i_byte = record {
  frame_type = bit_and i_byte 0x03;
  manufacturer_code_present = bit_and (u8 (i_byte >>> 2)) 0x01 != 0;
  direction = bit_and (u8 (i_byte >>> 3)) 0x01;
  disable_default_rsp = bit_and (u8 (i_byte >>> 4)) 0x01 != 0;
  software_code = bit_and (u8 (i_byte >>> 5)) 0x07;
}

-- `if (b) { lo_byte |= mask; }`
abbrev pub flag_if : Bool → ℕ → ℕ → ℕ
flag_if b mask lo_byte = if b then bit_or lo_byte mask else lo_byte

unfoldable pub get_frm_ctrl_byte : ZclFrameControl → ℕ
get_frm_ctrl_byte f = flag_if (f.software_code == e_sw_code_evo2) 0x20 (
    flag_if f.disable_default_rsp 0x10 (
      flag_if (f.direction == e_dir_server_to_client) 0x08
        (flag_if f.manufacturer_code_present 0x04 (bit_and f.frame_type 0x03))))

pub record ZclHeader : Type 0 where
  pub frm_ctrl : ZclFrameControl
  pub manufacturer_code : ℕ
  pub transaction_number : ℕ
  pub cmd_id : ℕ

unfoldable pub new_zcl_header : ZclHeader
unfolding new_zcl_frame_control
new_zcl_header = record {
  frm_ctrl = new_zcl_frame_control;
  manufacturer_code = 0x1021;
  transaction_number = 0;
  cmd_id = 0;
}

-- Without a manufacturer's code: the control byte `b` and what follows it.
unfoldable pub read_short_header : ℕ → List ℕ → Option (ZclHeader × ℕ)
read_short_header b (number ∷ id ∷ rest) = some (
  record {
    frm_ctrl = read_frame_control b;
    manufacturer_code = 0;
    transaction_number = number;
    cmd_id = id;
  },
  3,
)
read_short_header b _ = none

-- With a manufacturer's code.
unfoldable pub read_long_header : ℕ → List ℕ → Option (ZclHeader × ℕ)
read_long_header b (low ∷ high ∷ number ∷ id ∷ rest) = some (
  record {
    frm_ctrl = read_frame_control b;
    manufacturer_code = dble_u8_to_u16 high low;
    transaction_number = number;
    cmd_id = id;
  },
  5,
)
read_long_header b _ = none

-- The header and `o_idx`, its length; `none` where `at()` throws.
unfoldable pub read_zcl_header : List ℕ → Option (ZclHeader × ℕ)
unfolding read_short_header read_long_header
read_zcl_header [] = none
read_zcl_header (b ∷ i_data) =
    if (read_frame_control b).manufacturer_code_present
    then read_long_header b i_data
    else read_short_header b i_data

unfoldable pub set_msp_specific : ℕ → ℕ → ℕ → ZclHeader → ZclHeader
set_msp_specific i_cmd_id i_direction i_transaction_number h = record h {
  cmd_id = i_cmd_id;
  frm_ctrl = record (h.frm_ctrl) { direction = i_direction };
  transaction_number = i_transaction_number;
}

unfoldable pub set_msp_general : ℕ → ℕ → ℕ → ZclHeader → ZclHeader
set_msp_general i_cmd_id i_direction i_transaction_number h = record h {
  cmd_id = i_cmd_id;
  frm_ctrl = record (h.frm_ctrl) { direction = i_direction; frame_type = e_frm_type_general };
  transaction_number = i_transaction_number;
}

-- `if (0xFFFFU == i_manufacturer_id)`: no manufacturer's code.
abbrev pub without_code : ℕ → ZclFrameControl → ZclFrameControl
without_code i_manufacturer_id f =
    if i_manufacturer_id == 0xffff then record f { manufacturer_code_present = false } else f

unfoldable pub set_public_specific : ℕ → ℕ → ℕ → ℕ → ZclHeader → ZclHeader
set_public_specific i_manufacturer_id i_cmd_id i_direction i_transaction_number h = record h {
  cmd_id = i_cmd_id;
  frm_ctrl = without_code i_manufacturer_id (record (h.frm_ctrl) { direction = i_direction });
  transaction_number = i_transaction_number;
  manufacturer_code = i_manufacturer_id;
}

unfoldable pub set_public_general : ℕ → ℕ → ℕ → ℕ → ZclHeader → ZclHeader
set_public_general i_manufacturer_id i_cmd_id i_direction i_transaction_number h = record h {
  cmd_id = i_cmd_id;
  frm_ctrl =
      without_code i_manufacturer_id
        (record (h.frm_ctrl) { direction = i_direction; frame_type = e_frm_type_general });
  transaction_number = i_transaction_number;
  manufacturer_code = i_manufacturer_id;
}

unfoldable pub get_zcl_header : ZclHeader → List ℕ
get_zcl_header h =
    (get_frm_ctrl_byte h.frm_ctrl ∷ [])
    ++ (if h.frm_ctrl.manufacturer_code_present
        then u16_get_lo_u8 h.manufacturer_code ∷ u16_get_hi_u8 h.manufacturer_code ∷ []
        else [])
    ++ (h.transaction_number ∷ h.cmd_id ∷ [])

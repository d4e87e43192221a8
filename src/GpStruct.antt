-- ===== src/GpStruct.antt =====
-- src/ezsp/ezsp-protocol/struct/ember-gp-sink-table-options-field.cpp and
-- ember-gp-address-struct.cpp: the options of a sink table entry and the address of a Green Power
-- device.
pub mod RoundTrip
use libezsp.Common.{ℕ, ◌*◌, ◌/◌, ◌^◌, ◌%◌, ◌!=◌, bit_and, bit_or, bool_to_u8, u8, u16, ◌<<<◌, ◌>>>◌}
use libezsp.Common.{Bool, List, [], ◌∷◌, Option, none, some}
use libezsp.ByteManip.{u32_get_byte0, u32_get_byte1, u32_get_byte2, u32_get_byte3}

pub record SinkTableOption : Type 0 where
  pub application_id : ℕ
  pub communication_mode : ℕ
  pub sequence_number_capabilities : Bool
  pub rx_on_capability : Bool
  pub fixed_location : Bool
  pub assigned_alias : Bool
  pub security_use : Bool

-- The raw constructor.
unfoldable pub read_sink_option : ℕ → SinkTableOption
read_sink_option i_options = record {
  application_id = u8 (bit_and i_options 0x7);
  communication_mode = bit_and (u8 (i_options >>> 3)) 0x3;
  sequence_number_capabilities = bit_and i_options 0x20 != 0;
  rx_on_capability = bit_and i_options 0x40 != 0;
  fixed_location = bit_and i_options 0x80 != 0;
  assigned_alias = bit_and i_options 0x100 != 0;
  security_use = bit_and i_options 0x200 != 0;
}

unfoldable pub get_sink_option : SinkTableOption → ℕ
get_sink_option o =
    let o0 = u16 (o.application_id <<< 0) in
    let o3 = bit_or o0 (u16 (o.communication_mode <<< 3)) in
    let o5 = bit_or o3 (u16 (bool_to_u8 o.sequence_number_capabilities <<< 5)) in
    let o6 = bit_or o5 (u16 (bool_to_u8 o.rx_on_capability <<< 6)) in
    let o7 = bit_or o6 (u16 (bool_to_u8 o.fixed_location <<< 7)) in
    let o8 = bit_or o7 (u16 (bool_to_u8 o.assigned_alias <<< 8)) in
    bit_or o8 (u16 (bool_to_u8 o.security_use <<< 9))

-- The eight bytes of `gpdIeeeAddress` are a tuple.
pub record GpAddress : Type 0 where
  pub application_id : ℕ
  pub gpd_ieee_address : ℕ × ℕ × ℕ × ℕ × ℕ × ℕ × ℕ × ℕ
  pub endpoint : ℕ

unfoldable pub new_gp_address : GpAddress
new_gp_address = record {
  application_id = 0;
  gpd_ieee_address = (0, 0, 0, 0, 0, 0, 0, 0);
  endpoint = 0;
}

-- The raw constructor; `none` where `at()` throws.
unfoldable pub read_gp_address : List ℕ → Option GpAddress
read_gp_address (a ∷ b0 ∷ b1 ∷ b2 ∷ b3 ∷ b4 ∷ b5 ∷ b6 ∷ b7 ∷ e ∷ rest) = some (record {
  application_id = a;
  gpd_ieee_address = (b0, b1, b2, b3, b4, b5, b6, b7);
  endpoint = e;
})
read_gp_address _ = none

unfoldable pub source_id_address : ℕ → GpAddress
source_id_address i_src_id =
    let b0 = u32_get_byte0 i_src_id in
    let b1 = u32_get_byte1 i_src_id in
    let b2 = u32_get_byte2 i_src_id in
    let b3 = u32_get_byte3 i_src_id in
    record { application_id = 0; gpd_ieee_address = (b0, b1, b2, b3, b0, b1, b2, b3); endpoint = 0 }

unfoldable pub get_gp_address : GpAddress → List ℕ
get_gp_address g =
    let (b0, b1, b2, b3, b4, b5, b6, b7) = g.gpd_ieee_address in
    g.application_id ∷ b0 ∷ b1 ∷ b2 ∷ b3 ∷ b4 ∷ b5 ∷ b6 ∷ b7 ∷ g.endpoint ∷ []

-- ===== src/Structs/Pairing.antt =====
-- src/ezsp/zbmessage/gp-pairing-command-option-struct.cpp and
-- src/ezsp/ezsp-protocol/struct/ember-process-gp-pairing-parameter.cpp: the command that adds a Green
-- Power device to the adapter's proxy table or removes it; and the source ID of a proxy table entry
-- (ember-gp-proxy-table-entry-struct.cpp).
use libezsp.Common.{ℕ, ◌*◌, ◌^◌, bit_and, bit_or, bool_to_u8, leb, if◌then◌else◌, length}
use libezsp.Common.{Bool, true, false, List, [], ◌∷◌, ◌++◌, Option, none, replicate, drop}
use libezsp.ByteManip.{u16_get_lo_u8, u16_get_hi_u8}
use libezsp.ByteManip.{u32_get_byte0, u32_get_byte1, u32_get_byte2, u32_get_byte3}
use libezsp.GpStruct.{SinkTableOption, GpAddress, read_sink_option, get_gp_address}
use libezsp.GpStruct.{source_id_address, read_gp_address}
use libezsp.Structs.SinkEntry.{SinkTableEntry, get_security_level, get_security_key_type}
use libezsp.Structs.SinkEntry.{address_source_id}

pub record PairingOption : Type 0 where
  pub application_id : ℕ
  pub add_sink : Bool
  pub remove_gpd : Bool
  pub communication_mode : ℕ
  pub gpd_fixed : Bool
  pub gpd_mac_seq_number_capability : Bool
  pub security_level : ℕ
  pub security_key_type : ℕ
  pub gpd_security_frame_counter_present : Bool
  pub gpd_security_key_present : Bool
  pub assigned_alias_present : Bool
  pub forwarding_radius_present : Bool

-- The constructor, whose last three arguments are equal in every call.
unfoldable pub pairing_option : SinkTableOption → Bool → Bool → ℕ → ℕ → Bool → PairingOption
pairing_option o i_add_sink i_remove_gpd i_security_level i_security_key_type present = record {
  application_id = o.application_id;
  add_sink = i_add_sink;
  remove_gpd = i_remove_gpd;
  communication_mode = o.communication_mode;
  gpd_fixed = o.fixed_location;
  gpd_mac_seq_number_capability = o.sequence_number_capabilities;
  security_level = i_security_level;
  security_key_type = i_security_key_type;
  gpd_security_frame_counter_present = present;
  gpd_security_key_present = present;
  assigned_alias_present = o.assigned_alias;
  forwarding_radius_present = present;
}

-- get; the fields are bytes, so no shift reaches 2 ^ 32.
unfoldable pub get_pairing_option : PairingOption → ℕ
get_pairing_option o =
    let o0 = o.application_id in
    let o3 = bit_or o0 (bool_to_u8 o.add_sink * 2 ^ 3) in
    let o4 = bit_or o3 (bool_to_u8 o.remove_gpd * 2 ^ 4) in
    let o5 = bit_or o4 (o.communication_mode * 2 ^ 5) in
    let o7 = bit_or o5 (bool_to_u8 o.gpd_fixed * 2 ^ 7) in
    let o8 = bit_or o7 (bool_to_u8 o.gpd_mac_seq_number_capability * 2 ^ 8) in
    let o9 = bit_or o8 (o.security_level * 2 ^ 9) in
    let o11 = bit_or o9 (o.security_key_type * 2 ^ 11) in
    let o14 = bit_or o11 (bool_to_u8 o.gpd_security_frame_counter_present * 2 ^ 14) in
    let o15 = bit_or o14 (bool_to_u8 o.gpd_security_key_present * 2 ^ 15) in
    let o16 = bit_or o15 (bool_to_u8 o.assigned_alias_present * 2 ^ 16) in
    bit_or o16 (bool_to_u8 o.forwarding_radius_present * 2 ^ 17)

-- CProcessGpPairingParam.
pub record PairingParam : Type 0 where
  pub options : PairingOption
  pub addr : GpAddress
  pub comm_mode : ℕ
  pub sink_network_address : ℕ
  pub sink_group_id : ℕ
  pub assigned_alias : ℕ
  pub sink_ieee_address : List ℕ
  pub gpd_key : List ℕ
  pub gpd_security_frame_counter : ℕ
  pub forwarding_radius : ℕ

-- The constructor that removes a source ID.
unfoldable pub removal_param : ℕ → PairingParam
unfolding pairing_option source_id_address read_sink_option
removal_param i_gpd_source_id = record {
  options = pairing_option (read_sink_option 0) false true 0 0 false;
  addr = source_id_address i_gpd_source_id;
  comm_mode = 0;
  sink_network_address = 0;
  sink_group_id = 0;
  assigned_alias = 0;
  sink_ieee_address = replicate 8 0;
  gpd_key = replicate 16 0;
  gpd_security_frame_counter = 0;
  forwarding_radius = 0;
}

-- The constructor from an entry of the sink table.
unfoldable pub entry_param : SinkTableEntry → Bool → Bool → ℕ → List ℕ → PairingParam
unfolding pairing_option
entry_param e i_add_sink i_remove_gpd i_sink_network_address i_sink_ieee_address = record {
  options =
      pairing_option e.options i_add_sink i_remove_gpd (get_security_level e)
        (get_security_key_type e) true;
  addr = e.gpd;
  comm_mode = e.options.communication_mode;
  sink_network_address = i_sink_network_address;
  sink_group_id = bit_and (address_source_id e.gpd) 0xffff;
  assigned_alias = e.assigned_alias;
  sink_ieee_address = i_sink_ieee_address;
  gpd_key = e.gpd_key;
  gpd_security_frame_counter = e.gpd_security_frame_counter;
  forwarding_radius = e.groupcast_radius;
}

-- get.
unfoldable pub get_pairing_param : PairingParam → List ℕ
unfolding get_gp_address
get_pairing_param p =
    let l_option = get_pairing_option p.options in
    (u32_get_byte0 l_option
      ∷ u32_get_byte1 l_option
      ∷ u32_get_byte2 l_option
      ∷ u32_get_byte3 l_option
      ∷ [])
    ++ get_gp_address p.addr
    ++ (p.comm_mode
        ∷ u16_get_lo_u8 p.sink_network_address
        ∷ u16_get_hi_u8 p.sink_network_address
        ∷ u16_get_lo_u8 p.sink_group_id
        ∷ u16_get_hi_u8 p.sink_group_id
        ∷ u16_get_lo_u8 p.assigned_alias
        ∷ u16_get_hi_u8 p.assigned_alias
        ∷ [])
    ++ p.sink_ieee_address
    ++ p.gpd_key
    ++ (u32_get_byte0 p.gpd_security_frame_counter
        ∷ u32_get_byte1 p.gpd_security_frame_counter
        ∷ u32_get_byte2 p.gpd_security_frame_counter
        ∷ u32_get_byte3 p.gpd_security_frame_counter
        ∷ p.forwarding_radius
        ∷ [])

-- The address in a CEmberGpProxyTableEntryStruct.
unfoldable pub read_proxy_entry_address : List ℕ → Option GpAddress
read_proxy_entry_address raw = if leb 62 (length raw) then read_gp_address (drop 5 raw) else none

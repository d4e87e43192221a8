-- ===== src/Structs/SinkEntry.antt =====
-- src/ezsp/ezsp-protocol/struct/ember-gp-sink-table-entry-struct.cpp: an entry of the adapter's table
-- of Green Power devices, and src/ezsp/zbmessage/green-power-device.cpp: a device to register.
use libezsp.Common.{ℕ, bit_and, ◌>>>◌, leb, if◌then◌else◌, length, List, [], ◌∷◌, ◌++◌}
use libezsp.Common.{Bool, Option, none, replicate, drop, u8}
use libezsp.ByteManip.{dble_u8_to_u16, quad_u8_to_u32, u16_get_lo_u8, u16_get_hi_u8}
use libezsp.ByteManip.{u32_get_byte0, u32_get_byte1, u32_get_byte2, u32_get_byte3}
use libezsp.GpStruct.{SinkTableOption, GpAddress, read_sink_option, get_sink_option}
use libezsp.GpStruct.{new_gp_address, get_gp_address, read_gp_address}
use libezsp.Structs.{byte, bytes_at}
use mathlib.Core.Option

-- The two entries of `sink_list` are the byte 0xff in every object.
pub record SinkTableEntry : Type 0 where
  pub status : ℕ
  pub options : SinkTableOption
  pub gpd : GpAddress
  pub device_id : ℕ
  pub assigned_alias : ℕ
  pub groupcast_radius : ℕ
  pub security_options : ℕ
  pub gpd_security_frame_counter : ℕ
  pub gpd_key : List ℕ

unfoldable pub new_sink_table_entry : SinkTableEntry
unfolding new_gp_address read_sink_option
new_sink_table_entry = record {
  status = 0xff;
  options = read_sink_option 0;
  gpd = new_gp_address;
  device_id = 0;
  assigned_alias = 0;
  groupcast_radius = 0;
  security_options = 0;
  gpd_security_frame_counter = 0;
  gpd_key = replicate 16 0;
}

-- The raw constructor.
unfoldable pub read_sink_table_entry : List ℕ → Option SinkTableEntry
unfolding byte bytes_at
read_sink_table_entry raw =
    if leb 60 (length raw)
    then Option.map
        (λ g. record {
          status = byte raw 0;
          options = read_sink_option (dble_u8_to_u16 (byte raw 2) (byte raw 1));
          gpd = g;
          device_id = byte raw 13;
          assigned_alias = dble_u8_to_u16 (byte raw 37) (byte raw 36);
          groupcast_radius = byte raw 38;
          security_options = byte raw 39;
          gpd_security_frame_counter =
              quad_u8_to_u32 (byte raw 43) (byte raw 42) (byte raw 41) (byte raw 40);
          gpd_key = bytes_at raw 44 16;
        })
        (read_gp_address (drop 3 raw))
    else none

-- getRaw.
unfoldable pub get_sink_table_entry_raw : SinkTableEntry → List ℕ
unfolding get_gp_address
get_sink_table_entry_raw e =
    (e.status
      ∷ u16_get_lo_u8 (get_sink_option e.options)
      ∷ u16_get_hi_u8 (get_sink_option e.options)
      ∷ [])
    ++ get_gp_address e.gpd
    ++ (e.device_id
        ∷ 0xff
        ∷ 0xff
        ∷ u16_get_lo_u8 e.assigned_alias
        ∷ u16_get_hi_u8 e.assigned_alias
        ∷ e.groupcast_radius
        ∷ e.security_options
        ∷ u32_get_byte0 e.gpd_security_frame_counter
        ∷ u32_get_byte1 e.gpd_security_frame_counter
        ∷ u32_get_byte2 e.gpd_security_frame_counter
        ∷ u32_get_byte3 e.gpd_security_frame_counter
        ∷ e.gpd_key)

unfoldable pub get_security_level : SinkTableEntry → ℕ
get_security_level e = bit_and e.security_options 0x03

unfoldable pub get_security_key_type : SinkTableEntry → ℕ
get_security_key_type e = bit_and (u8 (e.security_options >>> 2)) 0x07

-- setEntryActive.
unfoldable pub set_entry_active : Bool → SinkTableEntry → SinkTableEntry
set_entry_active i_active e = record e { status = if i_active then 0x01 else 0xff }

-- The default options of a CGpDevice, and its security option.
unfoldable pub device_sink_option : SinkTableOption
unfolding read_sink_option
device_sink_option = read_sink_option 0x02a8

abbrev pub device_security_option : ℕ
device_security_option = 0x12

-- getSourceId of an address.
unfoldable pub address_source_id : GpAddress → ℕ
address_source_id g =
    let (b0, b1, b2, b3, _, _, _, _) = g.gpd_ieee_address in quad_u8_to_u32 b3 b2 b1 b0

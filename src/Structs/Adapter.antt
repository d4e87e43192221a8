-- ===== src/Structs/Adapter.antt =====
-- src/ezsp/ezsp-protocol/struct/: what the adapter says of a key (ember-key-struct.cpp), of a child
-- node (ember-child-data-struct.cpp) and of a network it has found (ember-zigbee-network.cpp).
use libezsp.Common.{ℕ, ◌+◌, ◌*◌, ◌^◌, ◌%◌, ◌!=◌, bit_or, leb, if◌then◌else◌, length}
use libezsp.Common.{ℤ, Bool, List, Option, none, some}
use libezsp.ByteManip.{dble_u8_to_u16}
use libezsp.Structs.{byte, bytes_at}

pub record KeyStruct : Type 0 where
  pub bitmask : ℕ
  pub key_type : ℕ
  pub key : List ℕ
  pub outgoing_frame_counter : ℕ
  pub incoming_frame_counter : ℕ
  pub sequence_number : ℕ
  pub partner_eui64 : List ℕ

-- Four bytes, the lowest first.
unfoldable pub read_u32 : List ℕ → ℕ → ℕ
unfolding byte
read_u32 raw i =
    let o1 = bit_or (byte raw i) (byte raw (1 + i) * 2 ^ 8) in
    let o2 = bit_or o1 (byte raw (2 + i) * 2 ^ 16) in bit_or o2 (byte raw (3 + i) * 2 ^ 24)

unfoldable pub read_key_struct : List ℕ → Option KeyStruct
unfolding byte bytes_at read_u32
read_key_struct raw =
    if leb 36 (length raw)
    then some (record {
      bitmask = dble_u8_to_u16 (byte raw 1) (byte raw 0);
      key_type = byte raw 2;
      key = bytes_at raw 3 16;
      outgoing_frame_counter = read_u32 raw 19;
      incoming_frame_counter = read_u32 raw 23;
      sequence_number = byte raw 27;
      partner_eui64 = bytes_at raw 28 8;
    })
    else none

-- The fields that are not left at their default.
pub record ChildData : Type 0 where
  pub eui64 : List ℕ
  pub node_type : ℕ
  pub id : ℕ
  pub phy : ℕ
  pub power : ℕ
  pub timeout : ℕ

unfoldable pub read_child_data : List ℕ → Option ChildData
unfolding byte bytes_at
read_child_data raw =
    if leb 14 (length raw)
    then some (record {
      eui64 = bytes_at raw 0 8;
      node_type = byte raw 8;
      id = dble_u8_to_u16 (byte raw 10) (byte raw 9);
      phy = byte raw 11;
      power = byte raw 12;
      timeout = byte raw 13;
    })
    else none

pub record ZigbeeNetwork : Type 0 where
  pub channel : ℕ
  pub pan_id : ℕ
  pub extended_pan_id : ℕ
  pub allowing_join : Bool
  pub stack_profile : ℕ
  pub nwk_update_id : ℕ

-- One turn of the loop: `extendedPanId << 8 | at(i)`, in 64 bits.
abbrev pub push_byte : ℕ → ℕ → ℕ
push_byte v b = bit_or (v * 2 ^ 8 % 2 ^ 64) b

unfoldable pub read_zigbee_network : List ℕ → Option ZigbeeNetwork
unfolding byte
read_zigbee_network raw =
    if leb 14 (length raw)
    then (let e0 = push_byte 0 (byte raw 10) in
        let e1 = push_byte e0 (byte raw 9) in
        let e2 = push_byte e1 (byte raw 8) in
        let e3 = push_byte e2 (byte raw 7) in
        let e4 = push_byte e3 (byte raw 6) in
        let e5 = push_byte e4 (byte raw 5) in
        let e6 = push_byte e5 (byte raw 4) in
        some (record {
          channel = byte raw 0;
          pan_id = dble_u8_to_u16 (byte raw 2) (byte raw 1);
          extended_pan_id = push_byte e6 (byte raw 3);
          allowing_join = byte raw 11 != 0;
          stack_profile = byte raw 12;
          nwk_update_id = byte raw 13;
        }))
    else none

-- ZigbeeNetworkScanResult.
pub record ScanResult : Type 0 where
  pub network : ZigbeeNetwork
  pub last_hop_lqi : ℕ
  pub last_hop_rssi : ℤ

-- ===== src/Structs/NetworkParameters.antt =====
-- src/ezsp/ezsp-protocol/struct/ember-network-parameters.cpp and
-- src/ezsp/ezsp-protocol/get-network-parameters-response.cpp: the parameters of a Zigbee network.
use libezsp.Common.{ℕ, ◌+◌, ◌*◌, ◌^◌, bit_or, bit_and, u8, ◌>>>◌, leb, if◌then◌else◌, length, ◌&&◌}
use libezsp.Common.{List, [], ◌∷◌, Option, none, some}
use libezsp.ByteManip.{dble_u8_to_u16, quad_u8_to_u32, u16_get_lo_u8, u16_get_hi_u8}
use libezsp.ByteManip.{u32_get_byte0, u32_get_byte1, u32_get_byte2, u32_get_byte3}
use libezsp.Structs.{byte}

pub record NetworkParameters : Type 0 where
  pub extend_pan_id : ℕ
  pub pan_id : ℕ
  pub radio_tx_power : ℕ
  pub radio_channel : ℕ
  pub join_method : ℕ
  pub nwk_manager_id : ℕ
  pub nwk_update_id : ℕ
  pub channels : ℕ

unfoldable pub new_network_parameters : NetworkParameters
new_network_parameters = record {
  extend_pan_id = 0;
  pan_id = 0;
  radio_tx_power = 3;
  radio_channel = 11;
  join_method = 0;
  nwk_manager_id = 0;
  nwk_update_id = 0;
  channels = 0;
}

-- The eight bytes of `extend_pan_id` from an index on, the lowest first; a shift of a byte by at
-- most 56 stays below 2 ^ 64.
unfoldable pub read_u64 : List ℕ → ℕ → ℕ
unfolding byte
read_u64 raw skip =
    let o1 = bit_or (byte raw skip) (byte raw (1 + skip) * 2 ^ 8) in
    let o2 = bit_or o1 (byte raw (2 + skip) * 2 ^ 16) in
    let o3 = bit_or o2 (byte raw (3 + skip) * 2 ^ 24) in
    let o4 = bit_or o3 (byte raw (4 + skip) * 2 ^ 32) in
    let o5 = bit_or o4 (byte raw (5 + skip) * 2 ^ 40) in
    let o6 = bit_or o5 (byte raw (6 + skip) * 2 ^ 48) in bit_or o6 (byte raw (7 + skip) * 2 ^ 56)

-- The raw constructor. `channels` is read at 16 whatever `skip` is.
unfoldable pub read_network_parameters : List ℕ → ℕ → Option NetworkParameters
unfolding byte read_u64
read_network_parameters raw skip =
    if leb (16 + skip) (length raw) && leb 20 (length raw)
    then some (record {
      extend_pan_id = read_u64 raw skip;
      pan_id = dble_u8_to_u16 (byte raw (9 + skip)) (byte raw (8 + skip));
      radio_tx_power = byte raw (10 + skip);
      radio_channel = byte raw (11 + skip);
      join_method = byte raw (12 + skip);
      nwk_manager_id = dble_u8_to_u16 (byte raw (14 + skip)) (byte raw (13 + skip));
      nwk_update_id = byte raw (15 + skip);
      channels = quad_u8_to_u32 (byte raw 19) (byte raw 18) (byte raw 17) (byte raw 16);
    })
    else none

-- getRaw.
unfoldable pub get_network_parameters_raw : NetworkParameters → List ℕ
get_network_parameters_raw p =
    u8 (bit_and p.extend_pan_id 0xff)
    ∷ u8 (bit_and (p.extend_pan_id >>> 8) 0xff)
    ∷ u8 (bit_and (p.extend_pan_id >>> 16) 0xff)
    ∷ u8 (bit_and (p.extend_pan_id >>> 24) 0xff)
    ∷ u8 (bit_and (p.extend_pan_id >>> 32) 0xff)
    ∷ u8 (bit_and (p.extend_pan_id >>> 40) 0xff)
    ∷ u8 (bit_and (p.extend_pan_id >>> 48) 0xff)
    ∷ u8 (bit_and (p.extend_pan_id >>> 56) 0xff)
    ∷ u16_get_lo_u8 p.pan_id
    ∷ u16_get_hi_u8 p.pan_id
    ∷ u8 p.radio_tx_power
    ∷ u8 p.radio_channel
    ∷ u8 p.join_method
    ∷ u16_get_lo_u8 p.nwk_manager_id
    ∷ u16_get_hi_u8 p.nwk_manager_id
    ∷ u8 p.nwk_update_id
    ∷ u32_get_byte0 p.channels
    ∷ u32_get_byte1 p.channels
    ∷ u32_get_byte2 p.channels
    ∷ u32_get_byte3 p.channels
    ∷ []

-- CGetNetworkParametersResponse.
pub record NetworkParametersResponse : Type 0 where
  pub status : ℕ
  pub node_type : ℕ
  pub parameters : NetworkParameters

unfoldable pub read_network_parameters_response : List ℕ → Option NetworkParametersResponse
unfolding read_network_parameters
read_network_parameters_response raw = elim (read_network_parameters raw 2) [
  | none ↦ none
  | some p ↦ some (record { status = byte raw 0; node_type = byte raw 1; parameters = p })
]

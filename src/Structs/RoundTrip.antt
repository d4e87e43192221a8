-- ===== src/Structs/RoundTrip.antt =====
-- CEmberNetworkParameters (src/ezsp/ezsp-protocol/struct/ember-network-parameters.cpp): the bytes that
-- getRaw writes are read back by the raw constructor.
use libezsp.Common.{ℕ, ◌+◌, ◌*◌, ◌^◌, ◌<◌, ◌≡◌, ◌∙◌, arith, u8, IsU8, IsU16, IsU32, ◌>>>◌}
use libezsp.Common.{bit_or_above, bit_and_mask, bit_and, List, [], ◌∷◌, some, refl}
use libezsp.ByteManip.{u16_get_hi_u8, quad_u8_to_u32}
use libezsp.ByteManip.{u32_get_byte0, u32_get_byte1}
use libezsp.ByteManip.Join.{dble_u8_to_u16-split, quad_u8_to_u32-split}
use libezsp.Structs.{byte}
use libezsp.Structs.NetworkParameters.{NetworkParameters, read_u64, read_network_parameters}
use libezsp.Structs.NetworkParameters.{read_network_parameters_response}
use libezsp.Structs.NetworkParameters.{get_network_parameters_raw}

u64_sum :
    (b0 b1 b2 b3 b4 b5 b6 b7 : ℕ) (rest : List ℕ)
    → IsU8 b0
    → IsU8 b1
    → IsU8 b2
    → IsU8 b3
    → IsU8 b4
    → IsU8 b5
    → IsU8 b6
    → read_u64 (b0 ∷ b1 ∷ b2 ∷ b3 ∷ b4 ∷ b5 ∷ b6 ∷ b7 ∷ rest) 0
      ≡ b0
        + b1 * 2 ^ 8
        + b2 * 2 ^ 16
        + b3 * 2 ^ 24
        + b4 * 2 ^ 32
        + b5 * 2 ^ 40
        + b6 * 2 ^ 48
        + b7 * 2 ^ 56
unfolding read_u64 byte
u64_sum b0 b1 b2 b3 b4 b5 b6 b7 rest h0 h1 h2 h3 h4 h5 h6 =
    rw
      (
        bit_or_above 8 b0 b1 (omega arith),
        bit_or_above 16 (b0 + b1 * 2 ^ 8) b2 (omega arith),
        bit_or_above 24 (b0 + b1 * 2 ^ 8 + b2 * 2 ^ 16) b3 (omega arith),
        bit_or_above 32 (b0 + b1 * 2 ^ 8 + b2 * 2 ^ 16 + b3 * 2 ^ 24) b4 (omega arith),
        bit_or_above 40 (b0 + b1 * 2 ^ 8 + b2 * 2 ^ 16 + b3 * 2 ^ 24 + b4 * 2 ^ 32) b5
            (omega arith),
        bit_or_above 48 (b0 + b1 * 2 ^ 8 + b2 * 2 ^ 16 + b3 * 2 ^ 24 + b4 * 2 ^ 32 + b5 * 2 ^ 40) b6
            (omega arith),
        bit_or_above 56
            (b0 + b1 * 2 ^ 8 + b2 * 2 ^ 16 + b3 * 2 ^ 24 + b4 * 2 ^ 32 + b5 * 2 ^ 40 + b6 * 2 ^ 48)
            b7 (omega arith),
      )
      refl

u8_small : (b : ℕ) → IsU8 b → u8 b ≡ b
u8_small b h = omega arith

-- The eight bytes of an extended PAN identifier.
u64_bytes :
    (w : ℕ) (rest : List ℕ)
    → w < 2 ^ 64
    → read_u64
        (u8 (bit_and w 0xff)
          ∷ u8 (bit_and (w >>> 8) 0xff)
          ∷ u8 (bit_and (w >>> 16) 0xff)
          ∷ u8 (bit_and (w >>> 24) 0xff)
          ∷ u8 (bit_and (w >>> 32) 0xff)
          ∷ u8 (bit_and (w >>> 40) 0xff)
          ∷ u8 (bit_and (w >>> 48) 0xff)
          ∷ u8 (bit_and (w >>> 56) 0xff)
          ∷ rest)
        0
      ≡ w
u64_bytes w rest h =
    u64_sum _ _ _ _ _ _ _ _ rest (omega arith) (omega arith) (omega arith) (omega arith)
      (omega arith) (omega arith) (omega arith)
    ∙ omega (
      arith,
      bit_and_mask 8 w,
      bit_and_mask 8 (w >>> 8),
      bit_and_mask 8 (w >>> 16),
      bit_and_mask 8 (w >>> 24),
      bit_and_mask 8 (w >>> 32),
      bit_and_mask 8 (w >>> 40),
      bit_and_mask 8 (w >>> 48),
      bit_and_mask 8 (w >>> 56),
    )

-- The channels that a response is read with: two bytes too early.
abbrev pub early_channels : NetworkParameters → ℕ
early_channels p =
    quad_u8_to_u32 (u32_get_byte1 p.channels) (u32_get_byte0 p.channels) p.nwk_update_id
      (u16_get_hi_u8 p.nwk_manager_id)

-- Network parameters, each of which fits its field, are read back from their twenty bytes. Behind the
-- two bytes of a response that come before them they are read back too, but for the channels, which
-- are made of the two bytes before them and their own two lower ones.
pub read-get_network_parameters :
    (p : NetworkParameters) (status node_type : ℕ)
    → p.extend_pan_id < 2 ^ 64
    → IsU16 p.pan_id
    → IsU8 p.radio_tx_power
    → IsU8 p.radio_channel
    → IsU8 p.join_method
    → IsU16 p.nwk_manager_id
    → IsU8 p.nwk_update_id
    → IsU32 p.channels
    → let raw = get_network_parameters_raw p in
      (read_network_parameters raw 0 ≡ some p)
      × (read_network_parameters_response (status ∷ node_type ∷ raw)
          ≡ some (record {
            status = status;
            node_type = node_type;
            parameters = record p { channels = early_channels p };
          }))
unfolding read_network_parameters get_network_parameters_raw byte read_network_parameters_response
    read_u64
read-get_network_parameters p status node_type h0 h1 h2 h3 h4 h5 h6 h7 =
    rw
      (
        u64_bytes p.extend_pan_id [] h0,
        (dble_u8_to_u16-split p.pan_id 0 0 h1 (omega arith) (omega arith)).0,
        (dble_u8_to_u16-split p.nwk_manager_id 0 0 h5 (omega arith) (omega arith)).0,
        quad_u8_to_u32-split p.channels h7,
        u8_small p.radio_tx_power h2,
        u8_small p.radio_channel h3,
        u8_small p.join_method h4,
        u8_small p.nwk_update_id h6,
      )
      (refl, refl)

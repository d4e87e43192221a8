-- ===== src/GpStruct/RoundTrip.antt =====
-- Reading back what CEmberGpSinkTableOption and CEmberGpAddressStruct write.
use libezsp.Common.{ℕ, agree_below, agree_below→eq, ◌≡◌, ◌<◌, refl, IsU32, List, ◌++◌, some}
use libezsp.ByteManip.{quad_u8_to_u32}
use libezsp.ByteManip.Join.{quad_u8_to_u32-split}
use libezsp.GpStruct.{read_sink_option, get_sink_option}
use libezsp.GpStruct.{GpAddress, read_gp_address, get_gp_address, source_id_address}

-- Every options word whose six reserved bits are clear is written as it was read.
pub get-read_sink_option : (w : ℕ) → w < 1024 → get_sink_option (read_sink_option w) ≡ w
unfolding agree_below read_sink_option get_sink_option
get-read_sink_option = agree_below→eq 1024 (λ w. get_sink_option (read_sink_option w)) (λ w. w) refl

-- The address of a device is read back from its ten bytes, whatever follows them; that of a 32-bit
-- source ID has the ID in both halves of its eight address bytes, low byte first.
pub read-get_gp_address :
    (g : GpAddress) (rest : List ℕ) (id : ℕ)
    → IsU32 id
    → let (b0, b1, b2, b3, b4, b5, b6, b7) = (source_id_address id).gpd_ieee_address in
      (read_gp_address (get_gp_address g ++ rest) ≡ some g)
      × (quad_u8_to_u32 b3 b2 b1 b0 ≡ id)
      × (quad_u8_to_u32 b7 b6 b5 b4 ≡ id)
unfolding read_gp_address get_gp_address source_id_address
read-get_gp_address g rest id h = (refl, quad_u8_to_u32-split id h, quad_u8_to_u32-split id h)

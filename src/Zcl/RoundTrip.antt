-- ===== src/Zcl/RoundTrip.antt =====
-- Reading back what CZCLFrameControl and CZCLHeader write.
use libezsp.Common.{ℕ, ◌≡◌, ◌<◌, ◌⊎◌, arith, IsU16, List, ◌++◌, some, if◌then◌else◌}
use libezsp.ByteManip.Join.{dble_u8_to_u16-split}
use libezsp.Zcl.{ZclFrameControl, read_frame_control, get_frm_ctrl_byte, ZclHeader, get_zcl_header}
use libezsp.Zcl.{read_zcl_header, read_short_header, read_long_header}

-- Values of the three enumerations.
pub record IsFrameControl (f : ZclFrameControl) : Type 0 where
  pub frame_type_small : f.frame_type < 4
  pub direction_small : f.direction < 2
  pub software_code_small : f.software_code < 2

one_of_four : (n : ℕ) → n < 4 → (n ≡ 0) ⊎ (n ≡ 1) ⊎ (n ≡ 2) ⊎ (n ≡ 3)
one_of_four n h = ground arith

one_of_two : (n : ℕ) → n < 2 → (n ≡ 0) ⊎ (n ≡ 1)
one_of_two n h = ground arith

-- A frame control is read back from its byte where its numbers are values of the enumerations.
pub read-get_frm_ctrl_byte :
    (f : ZclFrameControl) → IsFrameControl f → read_frame_control (get_frm_ctrl_byte f) ≡ f
unfolding read_frame_control get_frm_ctrl_byte
read-get_frm_ctrl_byte f v = ground (
  arith,
  one_of_four f.frame_type v.frame_type_small,
  one_of_two f.direction v.direction_small,
  one_of_two f.software_code v.software_code_small,
)

-- A ZCL header is read back from its bytes, whatever follows them, with its length; the code of the
-- manufacturer is 0 where the header has none.
pub read-get_zcl_header :
    (h : ZclHeader) (rest : List ℕ)
    → IsFrameControl h.frm_ctrl
    → IsU16 h.manufacturer_code
    → read_zcl_header (get_zcl_header h ++ rest) ≡ (
        if h.frm_ctrl.manufacturer_code_present
        then some (h, 5)
        else some (record h { manufacturer_code = 0 }, 3))
unfolding read_zcl_header read_short_header read_long_header get_zcl_header
read-get_zcl_header h rest v hm = ground (
  arith,
  read-get_frm_ctrl_byte h.frm_ctrl v,
  (dble_u8_to_u16-split h.manufacturer_code 0 0 hm (omega arith) (omega arith)).0,
)

-- ===== src/Ash/Codec.antt =====
-- The state of AshCodec (src/ezsp/ashv2-codec.h and .cpp) and the frames that it forges.
-- The two callbacks are listed in the order of their calls, as events.
pub mod Decode
pub mod Valid
pub mod Safe
pub mod Chunks
pub mod Transfer
pub mod Frames
pub mod Acks
pub mod Errors
use libezsp.Common.{ℕ, ◌+◌, ◌*◌, ◌%◌, ◌^◌, bit_and, bit_or, if◌then◌else◌, u8, ◌<<<◌}
use libezsp.Common.{Bool, true, false, List, [], ◌∷◌, ◌++◌, Option}
use libezsp.ByteManip.{u16_get_hi_u8, u16_get_lo_u8}
use libezsp.Ash.Stuffing.{add_byte_stuffing, ash_cancel_byte}
use libezsp.Ash.Randomize.{data_randomize}
use libezsp.Ash.Crc.{compute_crc}
use mathlib.Core.Option

pub data AshInfo : Type 0 where
  ash_reset_failed ash_ack ash_nack ash_state_disconnected ash_state_connected : AshInfo

-- `ackTimerCancelFunc()` and `pCb->ashCbInfo(info)`.
pub data Event : Type 0 where
  ack_timer_cancel : Event
  ash_cb_info : AshInfo → Event

-- The last two fields tell whether the pointers to the callbacks are set.
pub record AshCodec : Type 0 where
  pub next_expected_fe_ack_num : ℕ
  pub frm_num : ℕ
  pub last_received_by_ne_ack_num : ℕ
  pub state_connected : Bool
  pub in_msg : List ℕ
  pub has_cb : Bool
  pub has_ack_timer_cancel_func : Bool

-- The constructor.
unfoldable pub new_ash_codec : Bool → Bool → AshCodec
new_ash_codec has_cb has_ack_timer_cancel_func = record {
  next_expected_fe_ack_num = 0;
  frm_num = 0;
  last_received_by_ne_ack_num = 0;
  state_connected = false;
  in_msg = [];
  has_cb = has_cb;
  has_ack_timer_cancel_func = has_ack_timer_cancel_func;
}

unfoldable pub is_in_connected_state : AshCodec → Bool
is_in_connected_state c = c.state_connected

-- The calls `if (ackTimerCancelFunc) …` and `if (pCb) …`.
unfoldable pub cancel_ack_timer : AshCodec → List Event
cancel_ack_timer c = if c.has_ack_timer_cancel_func then ack_timer_cancel ∷ [] else []

unfoldable pub notify : AshCodec → AshInfo → List Event
notify c info = if c.has_cb then ash_cb_info info ∷ [] else []

-- A message with its checksum behind it, stuffed and closed by a flag byte.
unfoldable pub seal_frame : List ℕ → List ℕ
seal_frame lo_msg =
    let crc = compute_crc lo_msg in
    add_byte_stuffing (lo_msg ++ (u16_get_hi_u8 crc ∷ u16_get_lo_u8 crc ∷ []))

unfoldable pub forge_reset_ncp_frame : AshCodec → AshCodec × List ℕ × List Event
unfolding cancel_ack_timer notify seal_frame
forge_reset_ncp_frame c = (
  record c {
    next_expected_fe_ack_num = 0;
    last_received_by_ne_ack_num = 0;
    frm_num = 0;
    state_connected = false;
  },
  ash_cancel_byte ∷ seal_frame (0xc0 ∷ []),
  cancel_ack_timer c ++ notify c ash_state_disconnected,
)

unfoldable pub forge_ack_frame : AshCodec → List ℕ
unfolding seal_frame
forge_ack_frame c = seal_frame (bit_or c.last_received_by_ne_ack_num 0x80 ∷ [])

-- The control byte of a data frame.
unfoldable pub data_control_byte : AshCodec → ℕ
data_control_byte c = bit_or (u8 (c.frm_num <<< 4)) (bit_and c.last_received_by_ne_ack_num 0x07)

-- The new state and the frame; `none` if the randomization has no end.
unfoldable pub forge_data_frame : AshCodec → List ℕ → Option (AshCodec × List ℕ)
unfolding data_control_byte seal_frame
forge_data_frame c i_data =
    let frm_num' = bit_and (u8 (c.frm_num + 1)) 0x07 in
    Option.map
      (λ randomized. (
        record c { frm_num = frm_num'; next_expected_fe_ack_num = frm_num' },
        seal_frame (data_control_byte c ∷ randomized),
      ))
      (data_randomize i_data 0)

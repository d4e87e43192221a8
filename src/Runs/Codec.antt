-- ===== src/Runs/Codec.antt =====
-- AshCodec (src/ezsp/ashv2-codec.cpp) on short frames.
use libezsp.Common.{
  ℕ, ◌≡◌, ◌≤◌, refl, ◌∙◌, arith, true, false, List, [], ◌∷◌, length, some, bit_and,
}
use libezsp.Ash.Codec.{AshCodec, new_ash_codec, forge_reset_ncp_frame}
use libezsp.Ash.Codec.{ack_timer_cancel, data_control_byte, seal_frame}
use libezsp.Ash.Codec.{cancel_ack_timer}
use libezsp.Ash.Codec.Decode.{
  progress, ok, out_of_range, append_incoming, receive, receive_byte, receive_flag,
  process_accumulated, continue, pop_back,
}
use libezsp.Ash.Codec.Valid.{IsValid, SafeProgress, new_ash_codec-IsValid}
use libezsp.Ash.Codec.Safe.{append_incoming-Safe}
use libezsp.Ash.Codec.Chunks.{append_incoming-append}
use libezsp.Ash.Codec.Transfer.{with_crc, process-sealed}
use libezsp.Ash.Codec.Frames.{transfer_data, forge_data_frame_lem, length-seal_frame_le}
use libezsp.Ash.Codec.Frames.{process_data-sealed}
use libezsp.Ash.Codec.Errors.{substitute_forgotten, rstack_truncated, process_sound}
use libezsp.Ash.Randomize.{data_randomize}
use libezsp.Ash.Randomize.Laws.{keystream, length-keystream}
use libezsp.Ash.Crc.{compute_crc, crc_loop, crc_byte, crc_bits, crc_bit}
use libezsp.Ash.Stuffing.{add_byte_stuffing, stuff_all, stuff_byte, ash_substitute_byte}
use libezsp.Ash.Stuffing.{remove_byte_stuffing}
use libezsp.ByteManip.{u16_get_hi_u8, u16_get_lo_u8}

-- A codec as the constructor leaves it, with both callbacks set.
abbrev codec : AshCodec
codec = record {
  next_expected_fe_ack_num = 0;
  frm_num = 0;
  last_received_by_ne_ack_num = 0;
  state_connected = false;
  in_msg = [];
  has_cb = true;
  has_ack_timer_cancel_func = true;
}

codec-IsValid : IsValid codec
unfolding new_ash_codec
codec-IsValid = new_ash_codec-IsValid true true

-- The bytes of the EZSP command "version" with protocol version 8.
abbrev version_request : List ℕ
version_request = 0x00 ∷ 0x00 ∷ 0x00 ∷ 0x08 ∷ []

abbrev randomized : List ℕ
randomized = data_control_byte codec ∷ keystream 0x42 version_request

short_frame : length (seal_frame randomized) ≤ 132
short_frame = omega (arith, length-seal_frame_le randomized, length-keystream 0x42 version_request)

-- The reset frame, as it goes over the wire.
reset_frame : (forge_reset_ncp_frame codec).1 ≡ 0x1a ∷ 0xc0 ∷ 0x38 ∷ 0xbc ∷ 0x7e ∷ []
unfolding forge_reset_ncp_frame seal_frame compute_crc crc_loop crc_byte crc_bits crc_bit
    add_byte_stuffing stuff_all stuff_byte u16_get_hi_u8 u16_get_lo_u8
reset_frame = refl

transfer_data_example :
    append_incoming (seal_frame randomized) codec
    ≡ ok (
        progress
          (record codec { last_received_by_ne_ack_num = 1; in_msg = [] })
          false
          (version_request ∷ [])
          (ack_timer_cancel ∷ []))
unfolding cancel_ack_timer
transfer_data_example =
    transfer_data codec codec version_request codec-IsValid (ground arith) refl
      (forge_data_frame_lem codec version_request (omega arith)) short_frame

append_incoming-Safe_example : SafeProgress (append_incoming (0x7e ∷ 0x25 ∷ 0x01 ∷ 0x7e ∷ []) codec)
append_incoming-Safe_example =
    append_incoming-Safe (0x7e ∷ 0x25 ∷ 0x01 ∷ 0x7e ∷ []) codec (ground arith) codec-IsValid

one_flag : append_incoming (0x7e ∷ []) codec ≡ ok (progress codec false [] [])
unfolding append_incoming receive receive_byte receive_flag process_accumulated continue
one_flag = refl

append_incoming-append_example :
    append_incoming (0x7e ∷ 0x25 ∷ []) codec
    ≡ continue (progress codec false [] []) (append_incoming (0x25 ∷ []) codec)
append_incoming-append_example = append_incoming-append (0x7e ∷ []) (0x25 ∷ []) codec one_flag refl

substitute_forgotten_example :
    (append_incoming (ash_substitute_byte ∷ seal_frame randomized) codec
      ≡ ok (progress codec false [] []))
    × (append_incoming (ash_substitute_byte ∷ []) codec ≡ ok (progress codec true [] []))
substitute_forgotten_example = substitute_forgotten codec randomized refl short_frame

rstack_truncated_example :
    append_incoming (seal_frame (0xc1 ∷ 0x02 ∷ [])) codec
    ≡ out_of_range (record codec { in_msg = stuff_all (with_crc (0xc1 ∷ 0x02 ∷ [])) }) []
rstack_truncated_example =
    rstack_truncated codec (0x02 ∷ []) refl (omega arith)
      (omega (arith, length-seal_frame_le (0xc1 ∷ 0x02 ∷ [])))

-- The codec at the flag that ends the frame of the request.
abbrev filled : AshCodec
filled = record codec { in_msg = stuff_all (with_crc randomized) }

process_sound_example :
    let msg = remove_byte_stuffing filled.in_msg in
    let body = pop_back (pop_back msg) in
    (compute_crc msg ≡ 0)
    × (3 ≤ length msg)
    × (ctrl : ℕ) × (rest : List ℕ) × (body ≡ ctrl ∷ rest)
    × (bit_and ctrl 0x80 ≡ 0)
    × (data_randomize body 1 ≡ some version_request)
process_sound_example =
    process_sound filled
      (process-sealed filled (data_control_byte codec) (keystream 0x42 version_request) refl
        ∙ process_data-sealed codec filled version_request codec-IsValid (ground arith)
            (omega arith))
      (λ e. cc)

-- ===== src/Ash/Codec/Frames.antt =====
-- A data frame from one AshCodec to another (src/ezsp/ashv2-codec.cpp).
use libezsp.Common.{ℕ, ◌+◌, ◌*◌, ◌/◌, ◌%◌, ◌≤◌, ◌≡◌, refl, sym, ap, ◌∙◌, arith}
use libezsp.Common.{bit_and, bit_and_mask, bit_or_disjoint, agree_below, agree_below→eq, u8, IsU8}
use libezsp.Common.{◌==◌, if◌then◌else◌, false, Bool-cases, inl, inr, leb}
use libezsp.Common.{List, [], ◌∷◌, ◌++◌, length, length-append, All, some, none, some_inj}
use libezsp.ByteManip.{u8_get_hi_nibble, u8_get_lo_nibble}
use libezsp.ByteManip.Join.{hi_nibble, lo_nibble}
use libezsp.Ash.Randomize.{data_randomize}
use libezsp.Ash.Randomize.Laws.{
  keystream, keystream_involutive, length-keystream, data_randomize_total,
}
use libezsp.Ash.Randomize.Laws.{data_randomize_endless}
use libezsp.Ash.Codec.{AshCodec, cancel_ack_timer, seal_frame, data_control_byte}
use libezsp.Ash.Codec.{forge_data_frame}
use libezsp.Ash.Codec.Decode.{ok, progress, ◌>>=◌, clear_in_msg}
use libezsp.Ash.Codec.Decode.{append_incoming, process_control, process_data}
use libezsp.Ash.Codec.Valid.{IsValid}
use libezsp.Ash.Codec.Transfer.{receive_sealed, crc_bytes, with_crc}
use libezsp.Ash.Stuffing.{stuff_all, add_byte_stuffing}
use libezsp.Ash.Stuffing.Laws.{length-stuff_all}

bit_seven : (b : ℕ) → IsU8 b → bit_and b 0x80 ≡ b / 128 * 128
unfolding agree_below
bit_seven = agree_below→eq 256 (λ b. bit_and b 0x80) (λ b. b / 128 * 128) refl

data_control_sum :
    (s : AshCodec)
    → IsValid s
    → data_control_byte s ≡ s.frm_num * 16 + s.last_received_by_ne_ack_num
unfolding data_control_byte
data_control_sum s v =
    let high : s.frm_num * 16 % 256 ≡ s.frm_num * 16 = omega arith in
    let low : bit_and s.last_received_by_ne_ack_num 0x07 ≡ s.last_received_by_ne_ack_num =
      omega (arith, bit_and_mask 3 s.last_received_by_ne_ack_num) in
    rw (high, low) (bit_or_disjoint 4 s.frm_num s.last_received_by_ne_ack_num (omega arith))

-- A data frame opened by the branch for its control byte.
pub process_data-sealed :
    (s r : AshCodec) (i_data : List ℕ)
    → IsValid s
    → All IsU8 i_data
    → length i_data ≤ 254
    → process_control r (data_control_byte s) (data_control_byte s ∷ keystream 0x42 i_data)
      ≡ ok (record {
        codec = record r { last_received_by_ne_ack_num = (s.frm_num + 1) % 8 };
        payload = i_data;
        events =
            if r.next_expected_fe_ack_num == s.last_received_by_ne_ack_num
            then cancel_ack_timer r
            else [];
      })
unfolding process_control process_data
process_data-sealed s r i_data v hb h =
    let ctrl : ℕ = data_control_byte s in
    let sum : ctrl ≡ s.frm_num * 16 + s.last_received_by_ne_ack_num = data_control_sum s v in
    let is_data : bit_and ctrl 0x80 ≡ 0 = omega (arith, bit_seven ctrl (omega arith)) in
    let ack : bit_and (u8_get_lo_nibble ctrl) 0x07 ≡ s.last_received_by_ne_ack_num =
      omega (arith, lo_nibble ctrl, bit_and_mask 3 (u8_get_lo_nibble ctrl)) in
    let frm : bit_and (u8_get_hi_nibble ctrl) 0x07 ≡ s.frm_num =
      omega (arith, hi_nibble ctrl (omega arith), bit_and_mask 3 (u8_get_hi_nibble ctrl)) in
    let next : bit_and (u8 (s.frm_num + 1)) 0x07 ≡ (s.frm_num + 1) % 8 =
      omega (arith, bit_and_mask 3 (u8 (s.frm_num + 1))) in
    let opened : data_randomize (ctrl ∷ keystream 0x42 i_data) 1 ≡ some i_data =
      data_randomize_total (ctrl ∷ keystream 0x42 i_data) 1
        (omega (arith, length-keystream 0x42 i_data)) (omega arith)
      ∙ ap some (keystream_involutive 0x42 i_data (omega arith) hb) in
    ground (arith, is_data, ack, frm, next, opened)

-- The data frame as it is forged, for data of at most 255 bytes.
pub forge_data_frame_lem :
    (s : AshCodec) (i_data : List ℕ)
    → length i_data ≤ 255
    → (forge_data_frame s i_data)
      ≡ some (
        record s { frm_num = (s.frm_num + 1) % 8; next_expected_fe_ack_num = (s.frm_num + 1) % 8 },
        seal_frame (data_control_byte s ∷ keystream 0x42 i_data),
      )
unfolding forge_data_frame
forge_data_frame_lem s i_data h =
    let next : bit_and (u8 (s.frm_num + 1)) 0x07 ≡ (s.frm_num + 1) % 8 =
      omega (arith, bit_and_mask 3 (u8 (s.frm_num + 1))) in
    ground (arith, next, data_randomize_total i_data 0 h)

-- On data of more than 255 bytes, no data frame is ever forged.
pub forge_data_frame_endless :
    (s : AshCodec) (i_data : List ℕ) → 256 ≤ length i_data → forge_data_frame s i_data ≡ none
unfolding forge_data_frame data_randomize
forge_data_frame_endless s i_data h = rw (data_randomize_endless 256 i_data 0 0x42 h (omega arith))

length-seal_frame : (msg : List ℕ) → length msg + 3 ≤ length (seal_frame msg)
unfolding seal_frame add_byte_stuffing
length-seal_frame msg =
    let crc = crc_bytes msg in
    omega (
      arith,
      length-append msg crc,
      length-stuff_all (msg ++ crc),
      length-append (stuff_all (msg ++ crc)) (0x7e ∷ []),
    )

-- A data frame within the receiver's limit carries at most 128 bytes.
short_payload :
    (s : AshCodec) (i_data : List ℕ) {s' : AshCodec} {frame : List ℕ}
    → forge_data_frame s i_data ≡ some (s', frame)
    → length frame ≤ 132
    → length i_data ≤ 128
short_payload s i_data forged h = elim (Bool-cases (leb (length i_data) 255)) [
  | inl short ↦ ground (
    arith,
    forge_data_frame_lem s i_data (ground arith),
    length-seal_frame (data_control_byte s ∷ keystream 0x42 i_data),
    length-keystream 0x42 i_data,
  )
  | inr long ↦ ground (arith, forge_data_frame_endless s i_data (ground arith))
]

transfer_sealed :
    (s r : AshCodec) (i_data : List ℕ)
    → IsValid s
    → All IsU8 i_data
    → length i_data ≤ 128
    → r.in_msg ≡ []
    → length (seal_frame (data_control_byte s ∷ keystream 0x42 i_data)) ≤ 132
    → append_incoming (seal_frame (data_control_byte s ∷ keystream 0x42 i_data)) r
      ≡ ok (
          progress
            (record r { last_received_by_ne_ack_num = (s.frm_num + 1) % 8; in_msg = [] })
            false
            (i_data ∷ [])
            (if r.next_expected_fe_ack_num == s.last_received_by_ne_ack_num
              then cancel_ack_timer r
              else []))
unfolding cancel_ack_timer
transfer_sealed s r i_data v hb h empty room =
    let ctrl : ℕ = data_control_byte s in
    let body : List ℕ = keystream 0x42 i_data in
    let filled = record r { in_msg = stuff_all (with_crc (ctrl ∷ body)) } in
    receive_sealed r ctrl body empty room
    ∙ ap (λ x. x >>= λ p. ok (progress (clear_in_msg p.codec) false (p.payload ∷ []) p.events))
        (process_data-sealed s filled i_data v hb (omega arith))

-- A data frame that a valid codec `s` forges, received in one call by a codec `r` that has nothing
-- accumulated, delivers exactly the data, provided that the frame is at most 132 bytes long with
-- its flag byte. `r` will acknowledge the frame's number, and stops its timer exactly where `s`
-- acknowledged what `r` expected.
pub transfer_data :
    (s r : AshCodec) (i_data : List ℕ) {s' : AshCodec} {frame : List ℕ}
    → IsValid s
    → All IsU8 i_data
    → r.in_msg ≡ []
    → forge_data_frame s i_data ≡ some (s', frame)
    → length frame ≤ 132
    → append_incoming frame r
      ≡ ok (
          progress
            (record r { last_received_by_ne_ack_num = s'.frm_num; in_msg = [] })
            false
            (i_data ∷ [])
            (if r.next_expected_fe_ack_num == s.last_received_by_ne_ack_num
              then cancel_ack_timer r
              else []))
transfer_data s r i_data {s'} {frame} v hb empty forged room =
    let short = short_payload s i_data forged room in
    let pair = some_inj _ _ (sym (forge_data_frame_lem s i_data (omega arith)) ∙ forged) in
    let same_frame : seal_frame (data_control_byte s ∷ keystream 0x42 i_data) ≡ frame =
      ap (λ q. q.1) pair in
    let same_number : (s.frm_num + 1) % 8 ≡ s'.frm_num = ap (λ q. q.0.frm_num) pair in
    rw (← same_frame, ← same_number)
      (transfer_sealed s r i_data v hb short empty (rw same_frame room))

pub length-seal_frame_le : (msg : List ℕ) → length (seal_frame msg) ≤ 2 * length msg + 5
unfolding seal_frame add_byte_stuffing
length-seal_frame_le msg =
    let crc = crc_bytes msg in
    omega (
      arith,
      length-append msg crc,
      length-stuff_all (msg ++ crc),
      length-append (stuff_all (msg ++ crc)) (0x7e ∷ []),
    )

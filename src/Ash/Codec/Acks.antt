-- ===== src/Ash/Codec/Acks.antt =====
-- An acknowledge frame from one AshCodec to another (src/ezsp/ashv2-codec.cpp).
use libezsp.Common.{ℕ, ◌<◌, ◌≡◌, refl, ap, ◌∙◌, arith}
use libezsp.Common.{bit_and, bit_or, agree_below, agree_below→eq}
use libezsp.Common.{false}
use libezsp.Common.{[], ◌∷◌, ◌++◌}
use libezsp.Ash.Codec.Frames.{length-seal_frame_le}
use libezsp.Ash.Randomize.Laws.{}
use libezsp.Ash.Codec.{AshCodec, ash_ack, cancel_ack_timer, notify}
use libezsp.Ash.Codec.{forge_ack_frame}
use libezsp.Ash.Codec.Decode.{ok, progress, ◌>>=◌, clear_in_msg}
use libezsp.Ash.Codec.Decode.{append_incoming, process_control}
use libezsp.Ash.Codec.Valid.{IsValid}
use libezsp.Ash.Codec.Transfer.{receive_sealed, with_crc}
use libezsp.Ash.Stuffing.{stuff_all}

-- The control byte of an acknowledge frame, for each number from 0 to 7.
ack_control :
    (n : ℕ) → n < 8 → (bit_and (bit_or n 0x80) 0x80 ≡ 0x80) × (bit_and (bit_or n 0x80) 0x60 ≡ 0)
unfolding agree_below
ack_control n h = (
  agree_below→eq 8 (λ k. bit_and (bit_or k 0x80) 0x80) (λ k. 0x80) refl n h,
  agree_below→eq 8 (λ k. bit_and (bit_or k 0x80) 0x60) (λ k. 0) refl n h,
)

process_ack :
    (s r : AshCodec)
    → IsValid s
    → process_control r
        (bit_or s.last_received_by_ne_ack_num 0x80)
        (bit_or s.last_received_by_ne_ack_num 0x80 ∷ [])
      ≡ ok (record { codec = r; payload = []; events = cancel_ack_timer r ++ notify r ash_ack })
unfolding process_control
process_ack s r v =
    let (high, middle) = ack_control s.last_received_by_ne_ack_num v.acknowledge_small in
    rw (high, middle)

-- An acknowledge frame that a valid codec forges stops the receiver's timer and is reported to its
-- callback as an acknowledge; the receiver's counters stay as they are.
pub transfer_ack :
    (s r : AshCodec)
    → IsValid s
    → r.in_msg ≡ []
    → append_incoming (forge_ack_frame s) r
      ≡ ok (
          progress
            (record r { in_msg = [] })
            false
            ([] ∷ [])
            (cancel_ack_timer r ++ notify r ash_ack))
unfolding forge_ack_frame cancel_ack_timer notify
transfer_ack s r v empty =
    let ctrl : ℕ = bit_or s.last_received_by_ne_ack_num 0x80 in
    let filled = record r { in_msg = stuff_all (with_crc (ctrl ∷ [])) } in
    receive_sealed r ctrl [] empty (omega (arith, length-seal_frame_le (ctrl ∷ [])))
    ∙ ap (λ x. x >>= λ p. ok (progress (clear_in_msg p.codec) false (p.payload ∷ []) p.events))
        (process_ack s filled v)

-- ===== src/Ash/Codec/Valid.antt =====
-- What holds of an AshCodec between two calls: the three counters are numbers modulo 8, and the
-- bytes accumulated fit the largest frame.
use libezsp.Common.{ℕ, zero, suc, ◌+◌, ◌-◌, ◌≤◌, ◌<◌, ◌≡◌, refl, arith, bit_and}
use libezsp.Common.{u8, IsU8, bit_and_mask, Bool, true, false}
use libezsp.Common.{List, [], ◌∷◌, length, length-drop, drop, All}
use libezsp.Common.{some, Bool-cases, ◌==◌, inl, inr}
use libezsp.Ash.Stuffing.{remove_loop, remove_byte_stuffing, unescape}
use libezsp.Ash.Randomize.Laws.{length-keystream, keystream-IsU8, data_randomize_total}
use libezsp.Ash.Codec.{AshCodec, forge_reset_ncp_frame, forge_data_frame, new_ash_codec}
use libezsp.Ash.Codec.Decode.{Outcome, ok, out_of_range, endless, Progress, Processed, pop_back}
use libezsp.Ash.Codec.Decode.{
  process_data, process_rstack, process_rstack_fields, process_control, process_body,
}
use libezsp.Ash.Codec.Decode.{process_inter_flag_stream}

pub record IsValid (c : AshCodec) : Type 0 where
  pub expected_small : c.next_expected_fe_ack_num < 8
  pub frame_small : c.frm_num < 8
  pub acknowledge_small : c.last_received_by_ne_ack_num < 8
  pub fits : length c.in_msg ≤ 131
  pub bytes : All IsU8 c.in_msg

pub new_ash_codec-IsValid : (cb f : Bool) → IsValid (new_ash_codec cb f)
unfolding new_ash_codec
new_ash_codec-IsValid cb f = ground arith

low_three : (n : ℕ) → bit_and n 0x07 < 8
low_three n = omega (arith, bit_and_mask 3 n)

-- Forging a reset frame or a data frame keeps the invariant.
pub forge_reset_ncp_frame-IsValid : {c : AshCodec} → IsValid c → IsValid (forge_reset_ncp_frame c).0
unfolding forge_reset_ncp_frame
forge_reset_ncp_frame-IsValid v = ground arith

pub forge_data_frame-IsValid :
    {c c' : AshCodec} (i_data frame : List ℕ)
    → IsValid c
    → forge_data_frame c i_data ≡ some (c', frame)
    → IsValid c'
unfolding forge_data_frame
forge_data_frame-IsValid {c} i_data frame v e = ground (arith, low_three (u8 (c.frm_num + 1)))

-- What a pass over received bytes may return: never an endless run, and every payload is at most
-- 128 bytes long.
abbrev pub IsPayload : List ℕ → Type 0
IsPayload p = (length p ≤ 128) × All IsU8 p

abbrev pub SafeProcessed : Outcome Processed → Type 0
SafeProcessed (ok p) = IsValid p.codec × IsPayload p.payload
SafeProcessed (out_of_range c es) = IsValid c
SafeProcessed endless = ⊥

abbrev pub SafeProgress : Outcome Progress → Type 0
SafeProgress (ok p) = IsValid p.codec × All IsPayload p.payloads
SafeProgress (out_of_range c es) = IsValid c
SafeProgress endless = ⊥

unescape-IsU8 : (b : ℕ) → IsU8 (unescape b)
unfolding unescape
unescape-IsU8 b = ground arith

length-remove_loop : (e : Bool) (bs : List ℕ) → length (remove_loop e bs) ≤ length bs
unfolding remove_loop
length-remove_loop e [] = omega arith
length-remove_loop true (b ∷ bs) = omega (arith, length-remove_loop false bs)
length-remove_loop false (b ∷ bs) =
    ground (arith, length-remove_loop false bs, length-remove_loop true bs)

remove_loop-IsU8 : (e : Bool) (bs : List ℕ) → All IsU8 bs → All IsU8 (remove_loop e bs)
unfolding remove_loop
remove_loop-IsU8 e [] h = tt
remove_loop-IsU8 true (b ∷ bs) h = (unescape-IsU8 b, remove_loop-IsU8 false bs h.1)
remove_loop-IsU8 false (b ∷ bs) h = elim (Bool-cases (b == 0x7d)) [
  | inl e ↦ rw e (remove_loop-IsU8 true bs h.1)
  | inr e ↦ rw e (h.0, remove_loop-IsU8 false bs h.1)
]

pub length-pop_back : (xs : List ℕ) → length (pop_back xs) ≡ length xs - 1
unfolding pop_back
length-pop_back [] = refl
length-pop_back (x ∷ []) = refl
length-pop_back (x ∷ y ∷ r) = omega (arith, length-pop_back (y ∷ r))

pop_back-IsU8 : (xs : List ℕ) → All IsU8 xs → All IsU8 (pop_back xs)
unfolding pop_back
pop_back-IsU8 [] h = tt
pop_back-IsU8 (x ∷ []) h = tt
pop_back-IsU8 (x ∷ y ∷ r) h = (h.0, pop_back-IsU8 (y ∷ r) h.1)

drop-IsU8 : (n : ℕ) (xs : List ℕ) → All IsU8 xs → All IsU8 (drop n xs)
drop-IsU8 zero xs h = h
drop-IsU8 (suc n) [] h = tt
drop-IsU8 (suc n) (x ∷ xs) h = drop-IsU8 n xs h.1

process_data-Safe :
    (c : AshCodec) (b : ℕ) (msg : List ℕ)
    → IsValid c
    → length msg ≤ 129
    → All IsU8 msg
    → SafeProcessed (process_data c b msg)
unfolding process_data
process_data-Safe c b msg v h hb =
    rw (data_randomize_total msg 1 (omega arith) (omega arith), SafeProcessed)
      (
        grind (arith, low_three),
        (
          omega (arith, length-keystream 0x42 (drop 1 msg), length-drop 1 msg),
          keystream-IsU8 0x42 (drop 1 msg) (omega arith) (drop-IsU8 1 msg hb),
        ),
      )

process_rstack_fields-Safe :
    (c : AshCodec) (version code : ℕ)
    → IsValid c
    → SafeProcessed (process_rstack_fields c version code)
unfolding process_rstack_fields
process_rstack_fields-Safe c version code v = ground arith

process_rstack-Safe :
    (c : AshCodec) (msg : List ℕ) → IsValid c → SafeProcessed (process_rstack c msg)
unfolding process_rstack
process_rstack-Safe c [] v = v
process_rstack-Safe c (x ∷ []) v = v
process_rstack-Safe c (x ∷ version ∷ []) v = v
process_rstack-Safe c (x ∷ version ∷ code ∷ msg) v = process_rstack_fields-Safe c version code v

process_control-Safe :
    (c : AshCodec) (b : ℕ) (msg : List ℕ)
    → IsValid c
    → length msg ≤ 129
    → All IsU8 msg
    → SafeProcessed (process_control c b msg)
unfolding process_control
process_control-Safe c b msg v h hb =
    ground (arith, process_data-Safe c b msg, process_rstack-Safe c msg, low_three b)

process_body-Safe :
    (c : AshCodec) (body : List ℕ)
    → IsValid c
    → length body ≤ 129
    → All IsU8 body
    → SafeProcessed (process_body c body)
unfolding process_body
process_body-Safe c [] v h hb = v
process_body-Safe c (b ∷ bs) v h hb = process_control-Safe c b (b ∷ bs) v h hb

pub process_inter_flag_stream-Safe :
    (c : AshCodec) → IsValid c → SafeProcessed (process_inter_flag_stream c)
unfolding process_inter_flag_stream remove_byte_stuffing
process_inter_flag_stream-Safe c v =
    let msg = remove_byte_stuffing c.in_msg in
    let safe : SafeProcessed (process_body c (pop_back (pop_back msg))) =
      process_body-Safe c _ v
        (omega (
          arith,
          length-pop_back (pop_back msg),
          length-pop_back msg,
          length-remove_loop false c.in_msg,
        ))
        (pop_back-IsU8 _ (pop_back-IsU8 _ (remove_loop-IsU8 false c.in_msg v.bytes))) in
    ground arith

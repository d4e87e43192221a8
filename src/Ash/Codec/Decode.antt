-- ===== src/Ash/Codec/Decode.antt =====
-- The receiving side of AshCodec (src/ezsp/ashv2-codec.cpp): processInterFlagStream, and
-- appendIncoming as a loop over the bytes.
use libezsp.Common.{ℕ, ◌+◌, bit_and, ◌==◌, ◌!=◌, ltb, leb, if◌then◌else◌, u8, ◌||◌, ◌&&◌, not}
use libezsp.Common.{Bool, true, false, List, [], ◌∷◌, ◌++◌, length, get_elem?, none, some}
use libezsp.ByteManip.{u8_get_hi_nibble, u8_get_lo_nibble}
use libezsp.Ash.Stuffing.{remove_byte_stuffing, ash_cancel_byte, ash_flag_byte, ash_xon_byte}
use libezsp.Ash.Stuffing.{ash_substitute_byte, ash_off_byte}
use libezsp.Ash.Randomize.{data_randomize}
use libezsp.Ash.Crc.{compute_crc}
use libezsp.Ash.Codec.{AshCodec, Event, ash_ack, ash_nack, ash_state_connected}
use libezsp.Ash.Codec.{cancel_ack_timer, notify}

abbrev pub ash_max_length : ℕ
ash_max_length = 131

-- `out_of_range` is the exception of `at()`, with the codec as it is left behind and the callbacks
-- made until then; `endless` is a randomization that does not end.
pub data Outcome {ℓ} (A : Type ℓ) : Type ℓ where
  ok : A → Outcome A
  out_of_range : AshCodec → List Event → Outcome A
  endless : Outcome A

infixl 5 ◌>>=◌
abbrev pub ◌>>=◌ {ℓ κ} : {A : Type ℓ} {B : Type κ} → Outcome A → (A → Outcome B) → Outcome B
ok a >>= f = f a
out_of_range c es >>= f = out_of_range c es
endless >>= f = endless

pub record Processed : Type 0 where
  pub codec : AshCodec
  pub payload : List ℕ
  pub events : List Event

-- An empty payload, which all but data frames return.
abbrev pub nothing : AshCodec → List Event → Outcome Processed
nothing c es = ok (record { codec = c; payload = []; events = es })

unfoldable pub pop_back : List ℕ → List ℕ
pop_back [] = []
pop_back (x ∷ []) = []
pop_back (x ∷ y ∷ r) = x ∷ pop_back (y ∷ r)

-- The branch of a data frame. The acknowledge number that we send next follows the frame's number,
-- whatever its own acknowledge number is.
unfoldable pub process_data : AshCodec → ℕ → List ℕ → Outcome Processed
unfolding cancel_ack_timer
process_data c ash_control_byte lo_msg =
    let remote_ack_num = bit_and (u8_get_lo_nibble ash_control_byte) 0x07 in
    let remote_frm_num = bit_and (u8_get_hi_nibble ash_control_byte) 0x07 in
    let events = if c.next_expected_fe_ack_num != remote_ack_num then [] else cancel_ack_timer c in
    let c' = record c { last_received_by_ne_ack_num = bit_and (u8 (remote_frm_num + 1)) 0x07 } in
    elim (data_randomize lo_msg 1) [
      | none ↦ endless
      | some payload ↦ ok (record { codec = c'; payload = payload; events = events })
    ]

-- The reset codes after which the link counts as connected.
abbrev pub is_expected_reset : ℕ → Bool
is_expected_reset reset_code = reset_code == 0x0b || reset_code == 0x09 || reset_code == 0x02

unfoldable pub process_rstack_fields : AshCodec → ℕ → ℕ → Outcome Processed
unfolding cancel_ack_timer notify
process_rstack_fields c version reset_code =
    if version != 2
    then nothing c []
    else if not c.state_connected && is_expected_reset reset_code
    then nothing (record c { state_connected = true })
        (cancel_ack_timer c ++ notify c ash_state_connected)
    else nothing c []

-- The branch of an RSTACK frame; `at(1)` and `at(2)` fault on a frame that is too short.
unfoldable pub process_rstack : AshCodec → List ℕ → Outcome Processed
process_rstack c lo_msg = elim (get_elem? lo_msg 1) [
  | none ↦ out_of_range c []
  | some version ↦ elim (get_elem? lo_msg 2) [
    | none ↦ out_of_range c []
    | some reset_code ↦ process_rstack_fields c version reset_code
  ]
]

-- The chain of branches on the control byte.
unfoldable pub process_control : AshCodec → ℕ → List ℕ → Outcome Processed
unfolding cancel_ack_timer notify
process_control c ash_control_byte lo_msg =
    if bit_and ash_control_byte 0x80 == 0
    then process_data c ash_control_byte lo_msg
    else if bit_and ash_control_byte 0x60 == 0x00
    then nothing c (cancel_ack_timer c ++ notify c ash_ack)
    else if bit_and ash_control_byte 0x60 == 0x20
    then nothing (record c { frm_num = bit_and ash_control_byte 0x07 })
        (cancel_ack_timer c ++ notify c ash_nack)
    else if ash_control_byte == 0xc0
    then nothing c (cancel_ack_timer c)
    else if ash_control_byte == 0xc1
    then process_rstack c lo_msg
    else nothing c []

-- `lo_msg.at(0)` behind the checks, and the branches.
unfoldable pub process_body : AshCodec → List ℕ → Outcome Processed
process_body c lo_msg = elim (get_elem? lo_msg 0) [
  | none ↦ out_of_range c []
  | some ash_control_byte ↦ process_control c ash_control_byte lo_msg
]

unfoldable pub process_inter_flag_stream : AshCodec → Outcome Processed
process_inter_flag_stream c =
    let lo_msg = remove_byte_stuffing c.in_msg in
    if ltb (length lo_msg) 3
    then nothing c []
    else if compute_crc lo_msg != 0
    then nothing c []
    else process_body c (pop_back (pop_back lo_msg))

-- What the loop of appendIncoming has so far: the codec, the local `inputError`, the extracted
-- payloads and the callbacks made.
pub record Progress : Type 0 where
  pub codec : AshCodec
  pub input_error : Bool
  pub payloads : List (List ℕ)
  pub events : List Event

abbrev pub progress : AshCodec → Bool → List (List ℕ) → List Event → Progress
progress c e ps es = record { codec = c; input_error = e; payloads = ps; events = es }

abbrev pub clear_in_msg : AshCodec → AshCodec
clear_in_msg c = record c { in_msg = [] }

-- `if (!this->in_msg.empty())`: the accumulated bytes are a frame to process.
unfoldable pub process_accumulated : List ℕ → AshCodec → Outcome Progress
process_accumulated [] c = ok (progress (clear_in_msg c) false [] [])
process_accumulated (x ∷ xs) c = do
  p ← process_inter_flag_stream c
  ok (progress (clear_in_msg p.codec) false (p.payload ∷ []) p.events)

-- The `case` of a flag byte.
unfoldable pub receive_flag : Bool → AshCodec → Outcome Progress
receive_flag true c = ok (progress (clear_in_msg c) false [] [])
receive_flag false c = process_accumulated c.in_msg c

-- One round of the loop: the `switch` on the byte.
unfoldable pub receive_byte : ℕ → Bool → AshCodec → Outcome Progress
receive_byte val input_error c =
    if val == ash_cancel_byte
    then ok (progress (clear_in_msg c) false [] [])
    else if val == ash_flag_byte
    then receive_flag input_error c
    else if val == ash_substitute_byte
    then ok (progress c true [] [])
    else if val == ash_xon_byte
    then ok (progress c input_error [] [])
    else if val == ash_off_byte
    then ok (progress c input_error [] [])
    else if leb ash_max_length (length c.in_msg)
    then ok (progress (record c { in_msg = val ∷ [] }) true [] [])
    else ok (progress (record c { in_msg = c.in_msg ++ (val ∷ []) }) input_error [] [])

-- The outcome of the rounds that follow, with what was extracted and called before them. An
-- exception loses the payloads.
unfoldable pub continue : Progress → Outcome Progress → Outcome Progress
continue p (ok q) =
    ok (progress q.codec q.input_error (p.payloads ++ q.payloads) (p.events ++ q.events))
continue p (out_of_range c es) = out_of_range c (p.events ++ es)
continue p endless = endless

unfoldable pub receive : List ℕ → Bool → AshCodec → Outcome Progress
unfolding continue
receive [] input_error c = ok (progress c input_error [] [])
receive (val ∷ i_data) input_error c = do
  p ← receive_byte val input_error c
  continue p (receive i_data p.input_error p.codec)

-- `inputError` is false at the start of every call.
unfoldable pub append_incoming : List ℕ → AshCodec → Outcome Progress
unfolding receive
append_incoming i_data c = receive i_data false c

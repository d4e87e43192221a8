-- ===== src/Ash/Codec/Errors.antt =====
-- Damaged input to the receiving side of AshCodec (src/ezsp/ashv2-codec.cpp): what is refused, what
-- is ignored, and what is not handled.
use libezsp.Common.{ℕ, ◌+◌, ◌≤◌, ◌≡◌, refl, ap, ◌∙◌, ◌≢◌, arith}
use libezsp.Common.{true, false, List, [], ◌∷◌, ◌++◌, length, length-append, All, some}
use libezsp.Common.{bit_and}
use libezsp.Ash.Stuffing.{
  stuff_all, remove_byte_stuffing, ash_substitute_byte, ash_flag_byte, add_byte_stuffing,
}
use libezsp.Ash.Stuffing.Laws.{IsPlain, stuff_all-IsPlain}
use libezsp.Ash.Randomize.{data_randomize}
use libezsp.Ash.Crc.{compute_crc}
use libezsp.Ash.Codec.{AshCodec, seal_frame}
use libezsp.Ash.Codec.Decode.{ok, out_of_range, Processed, progress, ◌>>=◌, clear_in_msg}
use libezsp.Ash.Codec.Decode.{receive, receive_byte, receive_flag, append_incoming, pop_back}
use libezsp.Ash.Codec.Decode.{
  process_inter_flag_stream, process_body, process_control, process_rstack,
}
use libezsp.Ash.Codec.Decode.{process_data, process_rstack_fields}
use libezsp.Ash.Codec.Chunks.{receive-append, continue_start, and_then}
use libezsp.Ash.Codec.Transfer.{receive_plain, receive_one, receive_sealed, with_crc}

-- An error pending, the bytes up to the next flag byte are dropped, whatever they hold.
receive_flawed :
    (bs : List ℕ) (c : AshCodec)
    → All IsPlain bs
    → length c.in_msg + length bs ≤ 131
    → receive (bs ++ (ash_flag_byte ∷ [])) true c
      ≡ ok (progress (record c { in_msg = [] }) false [] [])
receive_flawed bs c h room =
    let c' = record c { in_msg = c.in_msg ++ bs } in
    receive-append bs (ash_flag_byte ∷ []) true c
    ∙ ap (λ r. and_then r (ash_flag_byte ∷ [])) (receive_plain bs true c h room)
    ∙ continue_start true c' (receive (ash_flag_byte ∷ []) true c')
    ∙ receive_one ash_flag_byte true c'
    ∙ flawed_flag
  where
    flawed_flag :
        receive_byte ash_flag_byte true (record c { in_msg = c.in_msg ++ bs })
        ≡ ok (progress (record c { in_msg = [] }) false [] [])
    flawed_flag = unfold receive_byte receive_flag in refl

-- A substitute byte and a sealed message behind it, received in one call, are ignored as the
-- protocol wants it. Received in two calls, cut behind the substitute byte, the flaw is forgotten:
-- the first call leaves the codec as it was, so the second one treats the message as if it were
-- sound.
pub substitute_forgotten :
    (r : AshCodec) (msg : List ℕ)
    → r.in_msg ≡ []
    → length (seal_frame msg) ≤ 132
    → (append_incoming (ash_substitute_byte ∷ seal_frame msg) r
        ≡ ok (progress (record r { in_msg = [] }) false [] []))
      × (append_incoming (ash_substitute_byte ∷ []) r ≡ ok (progress r true [] []))
unfolding append_incoming seal_frame add_byte_stuffing receive receive_byte
substitute_forgotten r msg empty room = (
  continue_start true r _
      ∙ receive_flawed (stuff_all (with_crc msg)) r (stuff_all-IsPlain (with_crc msg))
          (rw empty (omega (arith, length-append (stuff_all (with_crc msg)) (ash_flag_byte ∷ [])))),
  refl,
)

process_truncated :
    (c : AshCodec) (body : List ℕ)
    → length body ≤ 1
    → process_control c 0xc1 (0xc1 ∷ body) ≡ out_of_range c []
unfolding process_control process_rstack
process_truncated c [] h = refl
process_truncated c (x ∷ []) h = refl
process_truncated c (x ∷ y ∷ r) h = absurd (omega arith)

-- An RSTACK frame with a sound checksum but without its version or its reset code makes `at()`
-- throw, and the bytes of the frame stay accumulated, in front of the next frame.
pub rstack_truncated :
    (r : AshCodec) (body : List ℕ)
    → r.in_msg ≡ []
    → length body ≤ 1
    → length (seal_frame (0xc1 ∷ body)) ≤ 132
    → append_incoming (seal_frame (0xc1 ∷ body)) r
      ≡ out_of_range (record r { in_msg = stuff_all (with_crc (0xc1 ∷ body)) }) []
rstack_truncated r body empty short room =
    let filled = record r { in_msg = stuff_all (with_crc (0xc1 ∷ body)) } in
    receive_sealed r 0xc1 body empty room
    ∙ ap (λ x. x >>= λ p. ok (progress (clear_in_msg p.codec) false (p.payload ∷ []) p.events))
        (process_truncated filled body short)

rstack_no_payload :
    (c : AshCodec) (msg : List ℕ) (p : Processed) → process_rstack c msg ≡ ok p → p.payload ≡ []
unfolding process_rstack process_rstack_fields
rstack_no_payload c [] p e = cc
rstack_no_payload c (x ∷ []) p e = cc
rstack_no_payload c (x ∷ y ∷ []) p e = cc
rstack_no_payload c (x ∷ version ∷ code ∷ msg) p e = ground arith

control_sound :
    (c : AshCodec) (ctrl : ℕ) (msg : List ℕ) (p : Processed)
    → process_control c ctrl msg ≡ ok p
    → p.payload ≢ []
    → (bit_and ctrl 0x80 ≡ 0) × (data_randomize msg 1 ≡ some p.payload)
unfolding process_control process_data
control_sound c ctrl msg p e nonempty = ground (arith, rstack_no_payload c msg p)

body_sound :
    (c : AshCodec) (body : List ℕ) (p : Processed)
    → process_body c body ≡ ok p
    → p.payload ≢ []
    → (ctrl : ℕ) × (rest : List ℕ) × (body ≡ ctrl ∷ rest)
      × (bit_and ctrl 0x80 ≡ 0)
      × (data_randomize body 1 ≡ some p.payload)
unfolding process_body
body_sound c [] p e nonempty = cc
body_sound c (ctrl ∷ rest) p e nonempty =
    let (top, payload) = control_sound c ctrl (ctrl ∷ rest) p e nonempty in
    (ctrl, rest, refl, top, payload)

checks_sound :
    (c : AshCodec) (p : Processed)
    → process_inter_flag_stream c ≡ ok p
    → p.payload ≢ []
    → let msg = remove_byte_stuffing c.in_msg in
      (compute_crc msg ≡ 0) × (3 ≤ length msg) × (process_body c (pop_back (pop_back msg)) ≡ ok p)
unfolding process_inter_flag_stream
checks_sound c p e nonempty = ground arith

-- A payload that is not empty comes from a data frame: the unstuffed bytes have checksum 0, the
-- control byte has its top bit clear, and the payload is what the randomization gives for the
-- bytes behind it.
pub process_sound :
    (c : AshCodec) {p : Processed}
    → process_inter_flag_stream c ≡ ok p
    → p.payload ≢ []
    → let msg = remove_byte_stuffing c.in_msg in
      let body = pop_back (pop_back msg) in
      (compute_crc msg ≡ 0)
      × (3 ≤ length msg)
      × (ctrl : ℕ) × (rest : List ℕ) × (body ≡ ctrl ∷ rest)
      × (bit_and ctrl 0x80 ≡ 0)
      × (data_randomize body 1 ≡ some p.payload)
process_sound c {p} e nonempty =
    let (crc, long, passed) = checks_sound c p e nonempty in
    let (ctrl, rest, shape, top, payload) = body_sound c _ p passed nonempty in
    (crc, long, ctrl, rest, shape, top, payload)

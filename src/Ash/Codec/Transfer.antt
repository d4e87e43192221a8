-- ===== src/Ash/Codec/Transfer.antt =====
-- What one AshCodec forges, another one receives: the frames of src/ezsp/ashv2-codec.cpp from end
-- to end.
use libezsp.Common.{ℕ, ◌+◌, ◌≤◌, ◌<◌, ◌≡◌, refl, ap, ◌∙◌, arith}
use libezsp.Common.{ltb}
use libezsp.Common.{Bool, false, List, [], ◌∷◌, ◌++◌, length, length-append, All}
use libezsp.ByteManip.{u16_get_hi_u8, u16_get_lo_u8}
use libezsp.Ash.Stuffing.{
  stuff_all, remove_byte_stuffing, remove_loop, add_byte_stuffing, ash_flag_byte,
}
use libezsp.Ash.Stuffing.Laws.{IsPlain, stuff_all-IsPlain, remove_loop-stuff_all, length-stuff_all}
use libezsp.Ash.Crc.{compute_crc}
use libezsp.Ash.Crc.Laws.{compute_crc-checked}
use libezsp.Ash.Codec.{AshCodec, seal_frame}
use libezsp.Ash.Codec.Decode.{
  Outcome, ok, out_of_range, endless, Progress, progress, ◌>>=◌, clear_in_msg,
}
use libezsp.Ash.Codec.Decode.{
  receive, receive_byte, receive_flag, process_accumulated, append_incoming, continue, pop_back,
}
use libezsp.Ash.Codec.Decode.{process_inter_flag_stream, process_body, process_control}
use libezsp.Ash.Codec.Chunks.{receive-append, continue_start, and_then}
use mathlib.Core.List.{append_assoc, append-nil}

-- A plain byte is stored while there is room.
receive_byte-plain :
    (b : ℕ) (e : Bool) (c : AshCodec)
    → IsPlain b
    → length c.in_msg < 131
    → receive_byte b e c ≡ ok (progress (record c { in_msg = c.in_msg ++ (b ∷ []) }) e [] [])
unfolding receive_byte
receive_byte-plain b e c h room = ground arith

pub receive_plain :
    (bs : List ℕ) (e : Bool) (c : AshCodec)
    → All IsPlain bs
    → length c.in_msg + length bs ≤ 131
    → receive bs e c ≡ ok (progress (record c { in_msg = c.in_msg ++ bs }) e [] [])
unfolding receive
receive_plain [] e c h room = rw (append-nil c.in_msg)
receive_plain (b ∷ bs) e c h room =
    let c' = record c { in_msg = c.in_msg ++ (b ∷ []) } in
    rw (receive_byte-plain b e c h.0 (omega arith)) (
      continue_start e c' (receive bs e c')
      ∙ receive_plain bs e c' h.1 (omega (arith, length-append c.in_msg (b ∷ [])))
      ∙ rw (append_assoc c.in_msg (b ∷ []) bs))

-- The bytes of a sealed message before stuffing.
abbrev pub crc_bytes : List ℕ → List ℕ
crc_bytes msg = u16_get_hi_u8 (compute_crc msg) ∷ u16_get_lo_u8 (compute_crc msg) ∷ []

abbrev pub with_crc : List ℕ → List ℕ
with_crc msg = msg ++ crc_bytes msg

pop_back-append_one : (xs : List ℕ) (a : ℕ) → pop_back (xs ++ (a ∷ [])) ≡ xs
unfolding pop_back
pop_back-append_one [] a = refl
pop_back-append_one (x ∷ []) a = refl
pop_back-append_one (x ∷ y ∷ r) a = ap (◌∷◌ x) (pop_back-append_one (y ∷ r) a)

pop_back-append_two : (xs : List ℕ) (a b : ℕ) → pop_back (pop_back (xs ++ (a ∷ b ∷ []))) ≡ xs
pop_back-append_two xs a b =
    rw (← append_assoc xs (a ∷ []) (b ∷ []), pop_back-append_one (xs ++ (a ∷ [])) b)
      (pop_back-append_one xs a)

unstuffed_end : (msg : List ℕ) → msg ++ remove_loop false [] ≡ msg
unfolding remove_loop
unstuffed_end msg = append-nil msg

process_accumulated-some :
    (m : List ℕ) (c : AshCodec)
    → 1 ≤ length m
    → process_accumulated m c ≡ (
        process_inter_flag_stream c >>= λ p.
        ok (progress (clear_in_msg p.codec) false (p.payload ∷ []) p.events))
unfolding process_accumulated
process_accumulated-some [] c h = absurd (omega arith)
process_accumulated-some (x ∷ xs) c h = refl

-- The last round of the loop adds nothing behind its own outcome.
continue_end :
    (r : Outcome Progress) → (r >>= λ p. continue p (ok (progress p.codec p.input_error [] []))) ≡ r
unfolding continue
continue_end (ok p) = rw (append-nil p.payloads, append-nil p.events)
continue_end (out_of_range c es) = refl
continue_end endless = refl

pub receive_one : (b : ℕ) (e : Bool) (c : AshCodec) → receive (b ∷ []) e c ≡ receive_byte b e c
unfolding receive
receive_one b e c = continue_end (receive_byte b e c)

receive_byte-flag :
    (c : AshCodec) → receive_byte ash_flag_byte false c ≡ process_accumulated c.in_msg c
unfolding receive_byte receive_flag
receive_byte-flag c = refl

-- A sealed message comes out of the checks as it went in.
pub process-sealed :
    (c : AshCodec) (ctrl : ℕ) (body : List ℕ)
    → c.in_msg ≡ stuff_all (with_crc (ctrl ∷ body))
    → process_inter_flag_stream c ≡ process_control c ctrl (ctrl ∷ body)
unfolding process_inter_flag_stream remove_byte_stuffing process_body
process-sealed c ctrl body e =
    let msg = with_crc (ctrl ∷ body) in
    let back : remove_loop false c.in_msg ≡ msg =
      rw (e, ← append-nil (stuff_all msg)) (remove_loop-stuff_all msg [] ∙ unstuffed_end msg) in
    let long : ltb (length msg) 3 ≡ false =
      ground (arith, length-append body (crc_bytes (ctrl ∷ body))) in
    rw (back, long, compute_crc-checked (ctrl ∷ body), pop_back-append_two (ctrl ∷ body) _ _) refl

-- A sealed message is delivered to the branch for its control byte, and the codec is ready for
-- the next frame.
pub receive_sealed :
    (c : AshCodec) (ctrl : ℕ) (body : List ℕ)
    → c.in_msg ≡ []
    → length (seal_frame (ctrl ∷ body)) ≤ 132
    → append_incoming (seal_frame (ctrl ∷ body)) c ≡ (
        process_control
          (record c { in_msg = stuff_all (with_crc (ctrl ∷ body)) })
          ctrl
          (ctrl ∷ body)
        >>= λ p. ok (progress (clear_in_msg p.codec) false (p.payload ∷ []) p.events))
unfolding seal_frame append_incoming add_byte_stuffing
receive_sealed c ctrl body empty room =
    let msg = with_crc (ctrl ∷ body) in
    let c' = record c { in_msg = stuff_all msg } in
    let stored : receive (stuff_all msg) false c ≡ ok (progress c' false [] []) =
      receive_plain (stuff_all msg) false c (stuff_all-IsPlain msg)
        (rw empty (omega (arith, length-append (stuff_all msg) (ash_flag_byte ∷ []))))
      ∙ rw empty in
    receive-append (stuff_all msg) (ash_flag_byte ∷ []) false c
    ∙ ap (λ r. and_then r (ash_flag_byte ∷ [])) stored
    ∙ continue_start false c' (receive (ash_flag_byte ∷ []) false c')
    ∙ receive_one ash_flag_byte false c'
    ∙ receive_byte-flag c'
    ∙ process_accumulated-some (stuff_all msg) c'
        (omega (arith, length-stuff_all msg, length-append (ctrl ∷ body) (crc_bytes (ctrl ∷ body))))
    ∙ ap (λ r. r >>= λ p. ok (progress (clear_in_msg p.codec) false (p.payload ∷ []) p.events))
        (process-sealed c' ctrl body refl)

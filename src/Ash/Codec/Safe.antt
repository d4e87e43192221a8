-- ===== src/Ash/Codec/Safe.antt =====
-- `append_incoming` on any bytes: it ends, keeps the codec valid and bounds the payloads.
use libezsp.Common.{ℕ, arith}
use libezsp.Common.{IsU8, Bool, true, false}
use libezsp.Common.{List, [], ◌∷◌, length-append, All, All-append}
use libezsp.Ash.Codec.{AshCodec}
use libezsp.Ash.Codec.Decode.{Outcome, ok, out_of_range, endless, Progress, Processed}
use libezsp.Ash.Codec.Decode.{receive_byte, receive}
use libezsp.Ash.Codec.Decode.{receive_flag, process_accumulated, append_incoming, continue}
use libezsp.Ash.Codec.Decode.{◌>>=◌, progress, clear_in_msg}
use libezsp.Ash.Codec.Valid.{IsValid, IsPayload, SafeProcessed, SafeProgress}
use libezsp.Ash.Codec.Valid.{process_inter_flag_stream-Safe}

flag_done :
    (c : AshCodec) (r : Outcome Processed)
    → SafeProcessed r
    → SafeProgress (r >>= λ p. ok (progress (clear_in_msg p.codec) false (p.payload ∷ []) p.events))
flag_done c (ok p) h = (ground arith, (h.1, tt))
flag_done c (out_of_range c' es) h = h
flag_done c endless h = h

process_accumulated-Safe :
    (m : List ℕ) (c : AshCodec) → IsValid c → SafeProgress (process_accumulated m c)
unfolding process_accumulated
process_accumulated-Safe [] c v = (ground arith, tt)
process_accumulated-Safe (x ∷ xs) c v = flag_done c _ (process_inter_flag_stream-Safe c v)

receive_flag-Safe : (e : Bool) (c : AshCodec) → IsValid c → SafeProgress (receive_flag e c)
unfolding receive_flag
receive_flag-Safe true c v = (ground arith, tt)
receive_flag-Safe false c v = process_accumulated-Safe c.in_msg c v

pub receive_byte-Safe :
    (b : ℕ) (e : Bool) (c : AshCodec) → IsU8 b → IsValid c → SafeProgress (receive_byte b e c)
unfolding receive_byte
receive_byte-Safe b e c hb v = ground (
  arith,
  receive_flag-Safe e c v,
  length-append c.in_msg (b ∷ []),
  All-append IsU8 c.in_msg (b ∷ []) v.bytes (hb, tt),
)

continue-Safe :
    (p : Progress) (r : Outcome Progress)
    → All IsPayload p.payloads
    → SafeProgress r
    → SafeProgress (continue p r)
unfolding continue
continue-Safe p (ok q) hp h = (h.0, All-append IsPayload p.payloads q.payloads hp h.1)
continue-Safe p (out_of_range c es) hp h = h
continue-Safe p endless hp h = h

receive_rest-Safe :
    (bs : List ℕ)
    → ((e : Bool) (c : AshCodec) → IsValid c → SafeProgress (receive bs e c))
    → (r : Outcome Progress) → SafeProgress r
    → SafeProgress (r >>= λ p. continue p (receive bs p.input_error p.codec))
receive_rest-Safe bs later (ok p) h =
    continue-Safe p (receive bs p.input_error p.codec) h.1 (later p.input_error p.codec h.0)
receive_rest-Safe bs later (out_of_range c es) h = h
receive_rest-Safe bs later endless h = h

receive-Safe :
    (bs : List ℕ) (e : Bool) (c : AshCodec)
    → All IsU8 bs
    → IsValid c
    → SafeProgress (receive bs e c)
unfolding receive
receive-Safe [] e c hb v = (v, tt)
receive-Safe (b ∷ bs) e c hb v =
    receive_rest-Safe bs (λ e' c' v'. receive-Safe bs e' c' hb.1 v') (receive_byte b e c)
      (receive_byte-Safe b e c hb.0 v)

-- Whatever bytes are received, a valid codec ends the call, stays valid (also where an exception
-- leaves the call), and every payload that it returns consists of at most 128 bytes.
pub append_incoming-Safe :
    (bs : List ℕ) (c : AshCodec) → All IsU8 bs → IsValid c → SafeProgress (append_incoming bs c)
unfolding append_incoming
append_incoming-Safe bs c hb v = receive-Safe bs false c hb v

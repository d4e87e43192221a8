-- ===== src/Ash/Codec/Chunks.antt =====
-- The serial port hands bytes over in pieces: a stream received in two calls against one call.
use libezsp.Common.{ℕ, ◌≡◌, refl, sym, ap, ◌∙◌, Bool, false, List, [], ◌∷◌, ◌++◌}
use libezsp.Ash.Codec.{AshCodec}
use libezsp.Ash.Codec.Decode.{Outcome, ok, out_of_range, endless, Progress, progress, ◌>>=◌}
use libezsp.Ash.Codec.Decode.{receive, receive_byte, append_incoming, continue}
use mathlib.Core.List.{append_assoc}

continue-continue :
    (p q : Progress) (r : Outcome Progress)
    → continue p (continue q r)
      ≡ continue
          (progress q.codec q.input_error (p.payloads ++ q.payloads) (p.events ++ q.events))
          r
unfolding continue
continue-continue p q (ok s) =
    rw (append_assoc p.payloads q.payloads s.payloads, append_assoc p.events q.events s.events)
continue-continue p q (out_of_range c es) = rw (append_assoc p.events q.events es)
continue-continue p q endless = refl

pub continue_start :
    (e : Bool) (c : AshCodec) (r : Outcome Progress) → continue (progress c e [] []) r ≡ r
unfolding continue
continue_start e c (ok s) = refl
continue_start e c (out_of_range c' es) = refl
continue_start e c endless = refl

-- Receiving two pieces one after the other, the local `inputError` handed over.
abbrev pub and_then : Outcome Progress → List ℕ → Outcome Progress
and_then r ys = r >>= λ p. continue p (receive ys p.input_error p.codec)

and_then-continue :
    (p : Progress) (r : Outcome Progress) (ys : List ℕ)
    → and_then (continue p r) ys ≡ continue p (and_then r ys)
unfolding continue
and_then-continue p (ok q) ys = sym (continue-continue p q (receive ys q.input_error q.codec))
and_then-continue p (out_of_range c es) ys = refl
and_then-continue p endless ys = refl

-- The rest of the loop, in two pieces.
receive_rest :
    (xs ys : List ℕ)
    → ((e : Bool) (c : AshCodec) → receive (xs ++ ys) e c ≡ and_then (receive xs e c) ys)
    → (r : Outcome Progress)
    → (r >>= λ p. continue p (receive (xs ++ ys) p.input_error p.codec))
      ≡ and_then (r >>= λ p. continue p (receive xs p.input_error p.codec)) ys
receive_rest xs ys later (ok p) =
    ap (continue p) (later p.input_error p.codec)
    ∙ sym (and_then-continue p (receive xs p.input_error p.codec) ys)
receive_rest xs ys later (out_of_range c es) = refl
receive_rest xs ys later endless = refl

pub receive-append :
    (xs ys : List ℕ) (e : Bool) (c : AshCodec)
    → receive (xs ++ ys) e c ≡ and_then (receive xs e c) ys
unfolding receive
receive-append [] ys e c = sym (continue_start e c (receive ys e c))
receive-append (x ∷ xs) ys e c =
    receive_rest xs ys (λ e' c'. receive-append xs ys e' c') (receive_byte x e c)

-- A stream cut in two and received in two calls gives the same codec, payloads and callbacks as
-- in one call, provided that the first call ends with no input error pending.
pub append_incoming-append :
    (xs ys : List ℕ) (c : AshCodec) {p : Progress}
    → append_incoming xs c ≡ ok p
    → p.input_error ≡ false
    → append_incoming (xs ++ ys) c ≡ continue p (append_incoming ys p.codec)
unfolding append_incoming
append_incoming-append xs ys c {p} first clean =
    receive-append xs ys false c ∙ rw (first, and_then, clean)

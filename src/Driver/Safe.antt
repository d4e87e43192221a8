-- ===== src/Driver/Safe.antt =====
-- A pass of AshDriver (src/ezsp/ash-driver.cpp) over received bytes keeps an invariant of whoever
-- holds the driver, and comes to its end.
use libezsp.Common.{ℕ, arith, Bool, false, List, [], ◌∷◌, Option, none, some, All, IsU8}
use libezsp.Ash.Codec.{AshCodec, AshInfo, Event, ack_timer_cancel, ash_cb_info}
use libezsp.Ash.Codec.Decode.{Outcome, Progress, ok, out_of_range, endless, receive_byte}
use libezsp.Ash.Codec.Valid.{IsValid, SafeProgress}
use libezsp.Ash.Codec.Safe.{receive_byte-Safe}
use libezsp.Driver.{AshDriver, notified, stop_timer}
use libezsp.Driver.Feed.{Fed, fed, raised, hung, put_before, run_events, after_byte, feed}
use libezsp.Driver.Feed.{handle_input_data}

-- A state that there is, with an invariant.
abbrev pub KeptBy : {S : Type 0} → (S → Type 0) → Option S → Type 0
KeptBy inv none = ⊥
KeptBy inv (some s) = inv s

-- The pass comes to an end, and whether it returns or raises an exception, the invariant holds.
abbrev pub FedBy : {S : Type 0} → (S → Type 0) → Fed S → Type 0
FedBy inv (fed s ps) = inv s
FedBy inv (raised s) = inv s
FedBy inv hung = ⊥

-- What the holder of the driver keeps: its invariant implies that the codec is valid, and it survives
-- a change of the codec, the end of the timer and the callback.
pub record Holder {S : Type 0} (inv : S → Type 0) (get : S → AshDriver) (put : AshDriver → S → S)
    (on_info : AshInfo → S → Option S) : Type 0 where
  pub valid : (s : S) → inv s → IsValid (get s).ash_codec
  pub codec_kept :
      (c : AshCodec) (s : S) → IsValid c → inv s → inv (put (record (get s) { ash_codec = c }) s)
  pub timer_kept : (s : S) → inv s → inv (put (stop_timer (get s)) s)
  pub info_kept : (i : AshInfo) (s : S) → inv s → KeptBy inv (on_info i s)

pub resume-FedBy :
    {S : Type 0} (inv : S → Type 0) (o : Option S) (go_on : S → Fed S)
    → ((s : S) → inv s → FedBy inv (go_on s))
    → KeptBy inv o
    → FedBy inv (elim o [ none ↦ hung | some s ↦ go_on s ])
resume-FedBy inv none go_on h k = k
resume-FedBy inv (some s) go_on h k = h s k

module _ {S : Type 0} (inv : S → Type 0) (get : S → AshDriver) (put : AshDriver → S → S)
    (on_info : AshInfo → S → Option S) (holder : Holder inv get put on_info) where
  then_events :
      (o : Option S) (es : List Event)
      → ((s : S) → inv s → KeptBy inv (run_events get put on_info es s))
      → KeptBy inv o
      → KeptBy inv (elim o [ none ↦ none | some s ↦ run_events get put on_info es s ])
  then_events none es h k = k
  then_events (some s) es h k = h s k

  run_events-KeptBy :
      (es : List Event) (s : S) → inv s → KeptBy inv (run_events get put on_info es s)
  unfolding run_events
  run_events-KeptBy [] s w = w
  run_events-KeptBy (ack_timer_cancel ∷ es) s w =
      run_events-KeptBy es (put (stop_timer (get s)) s) (holder.timer_kept s w)
  run_events-KeptBy (ash_cb_info i ∷ es) s w =
      then_events (on_info i s) es (λ s' w'. run_events-KeptBy es s' w') (holder.info_kept i s w)

  after_byte-FedBy :
      (c : AshCodec) (es : List Event) (go_on : S → Fed S) (s : S)
      → IsValid c
      → ((s' : S) → inv s' → FedBy inv (go_on s'))
      → inv s
      → FedBy inv (after_byte get put on_info c es go_on s)
  unfolding after_byte
  after_byte-FedBy c es go_on s v h w =
      resume-FedBy inv _ go_on h (run_events-KeptBy es _ (holder.codec_kept c s v w))

  put_before-FedBy : (ps : List (List ℕ)) (r : Fed S) → FedBy inv r → FedBy inv (put_before ps r)
  put_before-FedBy ps (fed s qs) h = h
  put_before-FedBy ps (raised s) h = h
  put_before-FedBy ps hung h = h

  one_byte-FedBy :
      (r : Outcome Progress) (next : Bool → S → Fed S) (s : S)
      → SafeProgress r
      → ((e : Bool) (s' : S) → inv s' → FedBy inv (next e s'))
      → inv s
      → FedBy inv (elim r [
        | ok p ↦
            after_byte get put on_info p.codec p.events
              (λ s'. put_before p.payloads (next p.input_error s'))
              s
        | out_of_range c es ↦ after_byte get put on_info c es raised s
        | endless ↦ hung
      ])
  one_byte-FedBy (ok p) next s h k w =
      after_byte-FedBy p.codec p.events _ s h.0
        (λ s' w'. put_before-FedBy p.payloads _ (k p.input_error s' w')) w
  one_byte-FedBy (out_of_range c es) next s h k w = after_byte-FedBy c es raised s h (λ s' w'. w') w
  one_byte-FedBy endless next s h k w = h

  feed-FedBy :
      (bs : List ℕ) (e : Bool) (s : S)
      → All IsU8 bs
      → inv s
      → FedBy inv (feed get put on_info bs e s)
  unfolding feed
  feed-FedBy [] e s hb w = w
  feed-FedBy (b ∷ bs) e s hb w =
      one_byte-FedBy (receive_byte b e (get s).ash_codec) (feed get put on_info bs) s
        (receive_byte-Safe b e (get s).ash_codec hb.0 (holder.valid s w))
        (λ e' s' w'. feed-FedBy bs e' s' hb.1 w') w

  notified_payloads :
      (r : Fed S)
      → FedBy inv r
      → FedBy inv (elim r [
        | fed s payloads ↦ fed s (notified payloads)
        | raised s ↦ raised s
        | hung ↦ hung
      ])
  notified_payloads (fed s ps) h = h
  notified_payloads (raised s) h = h
  notified_payloads hung h = h

  pub handle_input_data-FedBy :
      (bs : List ℕ) (s : S)
      → All IsU8 bs
      → inv s
      → FedBy inv (handle_input_data get put on_info bs s)
  unfolding handle_input_data
  handle_input_data-FedBy bs s hb w =
      ground
        (arith, notified_payloads (feed get put on_info bs false s) (feed-FedBy bs false s hb w))

-- The payloads go on to the next one who handles them.
pub handled-FedBy :
    {S : Type 0} (inv : S → Type 0) (handle : List (List ℕ) → S → Option S) (r : Fed S)
    → ((ps : List (List ℕ)) (s : S) → inv s → KeptBy inv (handle ps s))
    → FedBy inv r
    → FedBy inv (elim r [
      | fed s payloads ↦ elim (handle payloads s) [ none ↦ hung | some s' ↦ fed s' [] ]
      | raised s ↦ raised s
      | hung ↦ hung
    ])
handled-FedBy inv handle (fed s ps) h w =
    resume-FedBy inv (handle ps s) (λ s'. fed s' []) (λ s' w'. w') (h ps s w)
handled-FedBy inv handle (raised s) h w = w
handled-FedBy inv handle hung h w = w

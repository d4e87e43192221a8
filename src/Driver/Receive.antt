-- ===== src/Driver/Receive.antt =====
-- The receiving side of AshDriver against the codec alone, for an observer of the link that only
-- takes note of what it is told.
use libezsp.Common.{ℕ, ◌≡◌, refl, if_true, sym, ap, ◌∙◌, arith, Bool, true, false}
use libezsp.Common.{List, [], ◌∷◌, ◌++◌, Option, none, some, All, IsU8}
use libezsp.Ash.Codec.{AshCodec, AshInfo, Event, ack_timer_cancel, ash_cb_info}
use libezsp.Ash.Codec.Decode.{
  Outcome, ok, out_of_range, endless, Progress, receive_byte, receive, append_incoming, continue,
  ◌>>=◌,
}
use libezsp.Ash.Codec.Valid.{IsValid, IsPayload, SafeProgress}
use libezsp.Ash.Codec.Safe.{append_incoming-Safe}
use libezsp.Driver.{AshDriver, stop_timer, notified, infos}
use libezsp.Driver.Feed.{
  Fed, fed, raised, hung, put_before, run_events, after_byte, feed, handle_input_data,
}
use mathlib.Core.List.{append_assoc, append-nil}

-- The driver, and what its CAshCallback was told.
pub record Watched : Type 0 where
  pub driver : AshDriver
  pub told : List AshInfo

abbrev pub put_driver : AshDriver → Watched → Watched
put_driver d s = record s { driver = d }

abbrev pub take_note : AshInfo → Watched → Option Watched
take_note i s = some (record s { told = s.told ++ (i ∷ []) })

abbrev pub watched_driver : Watched → AshDriver
watched_driver s = s.driver

abbrev pub watched_feed : List ℕ → Bool → Watched → Fed Watched
watched_feed = feed watched_driver put_driver take_note

abbrev pub watched_input : List ℕ → Watched → Fed Watched
watched_input = handle_input_data watched_driver put_driver take_note

-- The timer after the callbacks, and the state that they leave.
abbrev pub timer_after : List Event → Option ℕ → Option ℕ
timer_after [] t = t
timer_after (ack_timer_cancel ∷ es) t = timer_after es none
timer_after (ash_cb_info i ∷ es) t = timer_after es t

abbrev pub settled : AshCodec → List Event → Watched → Watched
settled c es s = record {
  driver = record (s.driver) { ash_codec = c; ack_timer = timer_after es s.driver.ack_timer };
  told = s.told ++ infos es;
}

abbrev pub summary : Outcome Progress → Watched → Fed Watched
summary (ok p) s = fed (settled p.codec p.events s) p.payloads
summary (out_of_range c es) s = raised (settled c es s)
summary endless s = hung

run_events-settled :
    (es : List Event) (s : Watched)
    → run_events watched_driver put_driver take_note es s ≡ some (settled s.driver.ash_codec es s)
unfolding run_events infos
run_events-settled [] s = ap (λ t. some (record s { told = t })) (sym (append-nil s.told))
run_events-settled (ack_timer_cancel ∷ es) s =
    run_events-settled es (put_driver (stop_timer s.driver) s)
run_events-settled (ash_cb_info i ∷ es) s =
    run_events-settled es (record s { told = s.told ++ (i ∷ []) })
    ∙ ap (λ t. some (record (settled s.driver.ash_codec es s) { told = t }))
        (append_assoc s.told (i ∷ []) (infos es))

infos-append : (es fs : List Event) → infos (es ++ fs) ≡ infos es ++ infos fs
unfolding infos
infos-append [] fs = refl
infos-append (ack_timer_cancel ∷ es) fs = infos-append es fs
infos-append (ash_cb_info i ∷ es) fs = ap (λ l. i ∷ l) (infos-append es fs)

timer_after-append :
    (es fs : List Event) (t : Option ℕ)
    → timer_after (es ++ fs) t ≡ timer_after fs (timer_after es t)
timer_after-append [] fs t = refl
timer_after-append (ack_timer_cancel ∷ es) fs t = timer_after-append es fs none
timer_after-append (ash_cb_info i ∷ es) fs t = timer_after-append es fs t

-- Two sets of callbacks, one after the other.
settled-append :
    (c c' : AshCodec) (es fs : List Event) (s : Watched)
    → settled c' fs (settled c es s) ≡ settled c' (es ++ fs) s
settled-append c c' es fs s = ground (
  arith,
  infos-append es fs,
  timer_after-append es fs s.driver.ack_timer,
  append_assoc s.told (infos es) (infos fs),
)

summary-continue :
    (p : Progress) (r : Outcome Progress) (s : Watched)
    → put_before p.payloads (summary r (settled p.codec p.events s)) ≡ summary (continue p r) s
unfolding continue
summary-continue p (ok q) s =
    ap (λ s'. fed s' (p.payloads ++ q.payloads))
      (settled-append p.codec q.codec p.events q.events s)
summary-continue p (out_of_range c es) s = ap raised (settled-append p.codec c p.events es s)
summary-continue p endless s = refl

go_on :
    (c : AshCodec) (es : List Event) (next : Watched → Fed Watched) (s : Watched)
    → after_byte watched_driver put_driver take_note c es next s ≡ next (settled c es s)
unfolding after_byte infos
go_on c es next s =
    rw (run_events-settled es (put_driver (record (s.driver) { ash_codec = c }) s), after_byte) refl

feed_byte :
    (bs : List ℕ)
    → ((e : Bool) (s : Watched) → watched_feed bs e s ≡ summary (receive bs e s.driver.ash_codec) s)
    → (r : Outcome Progress) (s : Watched)
    → elim r [
      | ok p ↦
          after_byte watched_driver put_driver take_note p.codec p.events
            (λ s'. put_before p.payloads (watched_feed bs p.input_error s'))
            s
      | out_of_range codec events ↦
          after_byte watched_driver put_driver take_note codec events raised s
      | endless ↦ hung
    ]
      ≡ summary (r >>= λ p. continue p (receive bs p.input_error p.codec)) s
feed_byte bs later (ok p) s =
    go_on p.codec p.events _ s
    ∙ ap (put_before p.payloads) (later p.input_error (settled p.codec p.events s))
    ∙ summary-continue p (receive bs p.input_error p.codec) s
feed_byte bs later (out_of_range c es) s = go_on c es raised s
feed_byte bs later endless s = refl

-- For an observer that only takes note, the driver's loop with its callbacks in the middle leaves
-- what the codec's own loop and its list of callbacks say.
pub feed-summary :
    (bs : List ℕ) (e : Bool) (s : Watched)
    → watched_feed bs e s ≡ summary (receive bs e s.driver.ash_codec) s
unfolding feed receive infos
feed-summary [] e s = ap (λ t. fed (record s { told = t }) []) (sym (append-nil s.told))
feed-summary (b ∷ bs) e s =
    feed_byte bs (λ e' s'. feed-summary bs e' s') (receive_byte b e s.driver.ash_codec) s

notified_short : (ps : List (List ℕ)) → All IsPayload ps → notified ps ≡ ps
unfolding notified
notified_short [] h = refl
notified_short (p ∷ ps) h = ground (arith, notified_short ps h.1)

all_told :
    (r : Outcome Progress) (s : Watched)
    → SafeProgress r
    → elim (summary r s) [
      | fed s' payloads ↦ fed s' (notified payloads)
      | raised s' ↦ raised s'
      | hung ↦ hung
    ]
      ≡ summary r s
all_told (ok p) s h = ap (fed (settled p.codec p.events s)) (notified_short p.payloads h.1)
all_told (out_of_range c es) s h = refl
all_told endless s h = refl

-- An enabled driver with a valid codec hands its observers exactly the payloads that the codec
-- extracts from the received bytes, dropping none; its timer and what its callback is told are those
-- of the codec's callbacks in their order, also where the call ends by an exception.
pub handle_input_data-summary :
    (bs : List ℕ) (s : Watched)
    → All IsU8 bs
    → IsValid s.driver.ash_codec
    → s.driver.enabled ≡ true
    → watched_input bs s ≡ summary (append_incoming bs s.driver.ash_codec) s
unfolding handle_input_data append_incoming
handle_input_data-summary bs s hb v on =
    if_true _ on
    ∙ rw (feed-summary bs false s) (
        all_told (receive bs false s.driver.ash_codec) s
          (append_incoming-Safe bs s.driver.ash_codec hb v))

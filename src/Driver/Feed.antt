-- ===== src/Driver/Feed.antt =====
-- The receiving side of AshDriver (src/ezsp/ash-driver.cpp). A callback of the codec runs in the
-- middle of the codec's loop over the bytes and may itself send, so the loop is written over the
-- state of whoever holds the driver.
use libezsp.Common.{ℕ, if◌then◌else◌, Bool, false, List, [], ◌∷◌, ◌++◌, Option, none, some}
use libezsp.Ash.Codec.{AshCodec, AshInfo, Event, ack_timer_cancel, ash_cb_info}
use libezsp.Ash.Codec.Decode.{ok, out_of_range, endless, receive_byte}
use libezsp.Driver.{AshDriver, stop_timer, notified}

-- What a pass over received bytes leaves: the state with the extracted payloads, the state at an
-- exception, or no state at all where a loop does not end.
pub data Fed {ℓ} (S : Type ℓ) : Type ℓ where
  fed : S → List (List ℕ) → Fed S
  raised : S → Fed S
  hung : Fed S

-- The payloads of the earlier bytes in front; an exception loses them.
abbrev pub put_before {ℓ} : {S : Type ℓ} → List (List ℕ) → Fed S → Fed S
put_before ps (fed s qs) = fed s (ps ++ qs)
put_before ps (raised s) = raised s
put_before ps hung = hung

-- `get` and `put` reach the driver in the state, and `on_info` is the CAshCallback.
module _ {ℓ} {S : Type ℓ} (get : S → AshDriver) (put : AshDriver → S → S)
    (on_info : AshInfo → S → Option S) where
  unfoldable pub run_events : List Event → S → Option S
  run_events [] s = some s
  run_events (ack_timer_cancel ∷ es) s = run_events es (put (stop_timer (get s)) s)
  run_events (ash_cb_info i ∷ es) s = elim (on_info i s) [
    | none ↦ none
    | some s' ↦ run_events es s'
  ]

  -- Keep the codec's new state, run its callbacks, and go on or stop.
  unfoldable pub after_byte : AshCodec → List Event → (S → Fed S) → S → Fed S
  unfolding run_events
  after_byte codec events go_on s =
      elim (run_events events (put (record (get s) { ash_codec = codec }) s)) [
        | none ↦ hung
        | some s' ↦ go_on s'
      ]

  -- AshCodec::appendIncoming with its callbacks.
  unfoldable pub feed : List ℕ → Bool → S → Fed S
  unfolding after_byte
  feed [] input_error s = fed s []
  feed (b ∷ bs) input_error s = elim (receive_byte b input_error (get s).ash_codec) [
    | ok p ↦ after_byte p.codec p.events (λ s'. put_before p.payloads (feed bs p.input_error s')) s
    | out_of_range codec events ↦ after_byte codec events raised s
    | endless ↦ hung
  ]

  -- AshDriver::handleInputData and appendIncoming up to the notification of the observers.
  unfoldable pub handle_input_data : List ℕ → S → Fed S
  unfolding feed notified
  handle_input_data data_in s =
      if (get s).enabled
      then elim (feed data_in false s) [
        | fed s' payloads ↦ fed s' (notified payloads)
        | raised s' ↦ raised s'
        | hung ↦ hung
      ]
      else fed s []

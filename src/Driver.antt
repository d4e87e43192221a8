-- ===== src/Driver.antt =====
-- src/ezsp/ash-driver.cpp: AshDriver, which writes the frames of its AshCodec to the serial port,
-- guards them by a timer and hands the received payloads to its observers.
pub mod Feed
pub mod Send
pub mod Receive
pub mod Safe
use libezsp.Common.{ℕ, zero, suc, ◌+◌, ◌!=◌, ltb, leb, if◌then◌else◌, not, ◌&&◌, Bool, true, false}
use libezsp.Common.{List, [], ◌∷◌, ◌++◌, length, Option, none, some}
use libezsp.Ash.Codec.{AshCodec, AshInfo, Event, ack_timer_cancel, ash_cb_info, ash_reset_failed}
use libezsp.Ash.Codec.{new_ash_codec, forge_reset_ncp_frame, forge_ack_frame, forge_data_frame}
use libezsp.Ash.Codec.{is_in_connected_state}
use mathlib.Core.Option

-- In milliseconds.
abbrev pub t_rx_ack_init : ℕ
t_rx_ack_init = 1600

abbrev pub t_ack_ash_reset : ℕ
t_ack_ash_reset = 5000

-- What a write function returns: whether its result is negative, and `writtenCnt`.
pub record WriteResult : Type 0 where
  pub failed : Bool
  pub written_cnt : ℕ

-- The serial port's write function answers from all that was written before and the new bytes.
abbrev pub WriteFunc : Type 0
WriteFunc = List (List ℕ) → List ℕ → WriteResult

-- `ack_timer` is the time the timer was started with, while it runs. `sent` is what went to the
-- write function, oldest first.
pub record AshDriver : Type 0 where
  pub enabled : Bool
  pub ack_timer : Option ℕ
  pub ash_codec : AshCodec
  pub serial_write_func : Option WriteFunc
  pub sent : List (List ℕ)

-- The constructor: the codec gets the function that stops the timer.
unfoldable pub new_ash_driver : Bool → AshDriver
new_ash_driver has_cb = record {
  enabled = true;
  ack_timer = none;
  ash_codec = new_ash_codec has_cb true;
  serial_write_func = none;
  sent = [];
}

unfoldable pub disable : AshDriver → AshDriver
disable d = record d { enabled = false }

unfoldable pub enable : AshDriver → AshDriver
enable d = record d { enabled = true }

unfoldable pub register_serial_writer : WriteFunc → AshDriver → AshDriver
register_serial_writer new_write_func d = record d { serial_write_func = some new_write_func }

unfoldable pub has_a_registered_serial_writer : AshDriver → Bool
has_a_registered_serial_writer d = elim d.serial_write_func [ none ↦ false | some f ↦ true ]

unfoldable pub is_connected : AshDriver → Bool
is_connected d = is_in_connected_state d.ash_codec

-- The call of the write function and the two tests of its answer.
unfoldable pub write_frame : WriteFunc → AshDriver → List ℕ → AshDriver × Bool
write_frame f d frame =
    let answer = f d.sent frame in
    (
      record d { sent = d.sent ++ (frame ∷ []) },
      if answer.failed then false else not (length frame != answer.written_cnt),
    )

unfoldable pub send_ash_frame : AshDriver → List ℕ → AshDriver × Bool
unfolding write_frame
send_ash_frame d frame = elim d.serial_write_func [
  | none ↦ (d, false)
  | some f ↦ if not d.enabled then (d, false) else write_frame f d frame
]

abbrev pub stop_timer : AshDriver → AshDriver
stop_timer d = record d { ack_timer = none }

abbrev pub start_timer : ℕ → AshDriver → AshDriver
start_timer t d = record d { ack_timer = some t }

-- What is left of the callbacks when the timer's has been made: those of the CAshCallback.
unfoldable pub infos : List Event → List AshInfo
infos [] = []
infos (ack_timer_cancel ∷ es) = infos es
infos (ash_cb_info i ∷ es) = i ∷ infos es

-- Only a frame that was written in full starts the timer.
abbrev pub start_if_sent : ℕ → AshDriver × Bool → AshDriver × Bool
start_if_sent t (d, true) = (start_timer t d, true)
start_if_sent t (d, false) = (d, false)

-- The driver, the result, and the calls of the CAshCallback. The codec's own call to stop the timer
-- finds it stopped.
unfoldable pub send_reset_ncp_frame : AshDriver → AshDriver × Bool × List AshInfo
unfolding infos
send_reset_ncp_frame d =
    let (codec, frame, events) = forge_reset_ncp_frame d.ash_codec in
    let (d', sent_ok) =
      start_if_sent t_ack_ash_reset
        (send_ash_frame (record d { ack_timer = none; ash_codec = codec }) frame) in
    (d', sent_ok, infos events)

unfoldable pub send_ack_frame : AshDriver → AshDriver × Bool
send_ack_frame d = send_ash_frame d (forge_ack_frame d.ash_codec)

-- `none` if the frame is never forged.
unfoldable pub send_data_frame : AshDriver → List ℕ → Option (AshDriver × Bool)
send_data_frame d i_data =
    Option.map
      (λ forged.
        start_if_sent t_rx_ack_init
          (send_ash_frame (record d { ack_timer = none; ash_codec = forged.0 }) forged.1))
      (forge_data_frame d.ash_codec i_data)

-- AshDriver::trigger, the timer's expiry: the calls of the CAshCallback.
unfoldable pub trigger : AshDriver → List AshInfo
trigger d = if not (is_connected d) && d.ash_codec.has_cb then ash_reset_failed ∷ [] else []

-- The payloads that the observers are notified of; one of more than 128 bytes is dropped.
unfoldable pub notified : List (List ℕ) → List (List ℕ)
notified [] = []
notified (p ∷ ps) =
    let rest = notified ps in let kept = p ∷ rest in if ltb 128 (length p) then rest else kept

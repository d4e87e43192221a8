-- ===== src/Driver/Send.antt =====
-- What the sending operations of AshDriver (src/ezsp/ash-driver.cpp) do on every branch.
use libezsp.Common.{ℕ, ◌≡◌, refl, arith, not, ◌==◌, ◌&&◌, Bool, false}
use libezsp.Common.{List, [], ◌∷◌, ◌++◌, length, none, some, if◌then◌else◌}
use libezsp.Ash.Codec.{AshCodec, forge_data_frame, forge_reset_ncp_frame}
use libezsp.Ash.Codec.{ash_state_disconnected}
use libezsp.Driver.{AshDriver, send_ash_frame, send_data_frame, send_reset_ncp_frame}
use libezsp.Driver.{t_rx_ack_init, t_ack_ash_reset, infos}

-- The driver may write: it has a write function and is enabled.
abbrev pub can_write : AshDriver → Bool
can_write d = elim d.serial_write_func [ none ↦ false | some f ↦ d.enabled ]

-- The port takes the whole frame and reports no failure.
abbrev pub accepts : AshDriver → List ℕ → Bool
accepts d frame = elim d.serial_write_func [
  | none ↦ false
  | some f ↦
      d.enabled && not (f d.sent frame).failed && ((f d.sent frame).written_cnt == length frame)
]

pub send_ash_frame_lem :
    (d : AshDriver) (frame : List ℕ)
    → send_ash_frame d frame ≡ (
      record d { sent = if can_write d then d.sent ++ (frame ∷ []) else d.sent },
      accepts d frame,
    )
unfolding send_ash_frame
send_ash_frame_lem d frame = ground arith

-- A data frame is reported as sent exactly if the port accepts the whole of it; the acknowledge
-- timer then runs for 1600 ms, and is stopped otherwise. Whatever the result, the codec has moved
-- on to the next frame number, and the frame is what was written last if the driver may write at
-- all, while nothing was written if not.
pub send_data_frame_outcome :
    (d : AshDriver) (i_data : List ℕ) (codec : AshCodec) (frame : List ℕ)
    → forge_data_frame d.ash_codec i_data ≡ some (codec, frame)
    → send_data_frame d i_data
      ≡ some (
        record d {
          ack_timer = if accepts d frame then some t_rx_ack_init else none;
          ash_codec = codec;
          sent = if can_write d then d.sent ++ (frame ∷ []) else d.sent;
        },
        accepts d frame,
      )
unfolding send_data_frame
send_data_frame_outcome d i_data codec frame e =
    ground (arith, send_ash_frame_lem (record d { ack_timer = none; ash_codec = codec }) frame)

reset_codec :
    (c : AshCodec)
    → let (c', frame, events) = forge_reset_ncp_frame c in
      (c'.state_connected ≡ false)
      × (c'.frm_num ≡ 0)
      × (c'.next_expected_fe_ack_num ≡ 0)
      × (c'.last_received_by_ne_ack_num ≡ 0)
      × (infos events ≡ (if c.has_cb then ash_state_disconnected ∷ [] else []))
unfolding forge_reset_ncp_frame infos
reset_codec c = (refl, refl, refl, refl, ground arith)

-- A reset is reported as sent exactly if the port accepts the whole frame, and then its timer runs
-- for 5000 ms. Whatever the result, the link counts as disconnected from then on, all counters
-- start over at 0 and a callback that is set is told of the disconnection.
pub send_reset_ncp_frame_outcome :
    (d : AshDriver)
    → let forged = forge_reset_ncp_frame d.ash_codec in
      let frame = forged.1 in
      let (d', sent_ok, told) = send_reset_ncp_frame d in
      (sent_ok ≡ accepts d frame)
      × (d'.ack_timer ≡ (if accepts d frame then some t_ack_ash_reset else none))
      × (d'.sent ≡ (if can_write d then d.sent ++ (frame ∷ []) else d.sent))
      × (d'.ash_codec.state_connected ≡ false)
      × (d'.ash_codec.frm_num ≡ 0)
      × (d'.ash_codec.next_expected_fe_ack_num ≡ 0)
      × (d'.ash_codec.last_received_by_ne_ack_num ≡ 0)
      × (told ≡ (if d.ash_codec.has_cb then ash_state_disconnected ∷ [] else []))
unfolding send_reset_ncp_frame
send_reset_ncp_frame_outcome d =
    let forged = forge_reset_ncp_frame d.ash_codec in
    let d' = record d { ack_timer = none; ash_codec = forged.0 } in
    ground (arith, reset_codec d.ash_codec, send_ash_frame_lem d' forged.1)

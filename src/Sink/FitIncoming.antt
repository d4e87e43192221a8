-- ===== src/Sink/FitIncoming.antt =====
-- What CGpSink::handleEzspRxMessage (src/ezsp/zigbee-tools/green-power-sink.cpp) sends for any
-- message fits the dongle.
use libezsp.Common.{ℕ, ◌+◌, ◌≤◌, arith, Bool, true, List, [], ◌∷◌}
use libezsp.Common.{length, length-append, All, All-append, Option, none, some, u8}
use libezsp.GpFrame.{GpFrame, read_gp_frame}
use libezsp.GpStruct.{GpAddress, source_id_address}
use libezsp.Commissioning.{Aes}
use libezsp.Effects.{Effect, Ran, ran, thrown, sink_com_in_progress}
use libezsp.Effects.{KeyStatus, undefined, valid, invalid}
use libezsp.EzspEnum.{ezsp_gp_sink_table_find_or_allocate_entry}
use libezsp.Sink.{GpSink, gp_send}
use libezsp.Sink.Fits.{IsPlain, KeysFit, IsFit, IsFitRan, length-get_gp_address}
use libezsp.Sink.Fits.{set_sink_state-IsFit, source-IsPlain, IsFit-then}
use libezsp.Sink.FitAnswers.{get_network_parameters-IsFit, find_or_allocate-IsFit}
use libezsp.Sink.FitAnswers.{sink_table_lookup-IsFit, sink_table_get_entry-IsFit}
use libezsp.Sink.FitAnswers.{sink_table_set_entry-IsFit, proxy_table_lookup-IsFit}
use libezsp.Sink.FitAnswers.{proxy_table_get_entry-IsFit, process_gp_pairing-IsFit}
use libezsp.Sink.Incoming.{send_channel, start_commissioning, answer_channel_request}
use libezsp.Sink.Incoming.{handle_incoming_no_security, switch_channel, handle_incoming_security}
use libezsp.Sink.Incoming.{
  status_only, told_frame, told_gpd_id, after, handle_by_key, frame_received,
}
use libezsp.Sink.Incoming.{handle_incoming_message, handle_d_gp_sent, handle_ezsp_rx_message}

length-gp_send :
    (a c : Bool) (g : GpAddress) (cmd : ℕ) (payload : List ℕ) (t h : ℕ)
    → length payload ≤ 200
    → IsPlain (gp_send a c g cmd payload t h)
unfolding gp_send
length-gp_send a c g cmd payload t h small =
    (omega arith, simp length-append (omega (arith, length-get_gp_address g)))

send_channel-IsPlain : (i t h : ℕ) (s : GpSink) → IsPlain (send_channel i t h s)
unfolding send_channel
send_channel-IsPlain i t h s = length-gp_send true true (source_id_address i) _ _ t h (omega arith)

start_commissioning-IsFit : (f : GpFrame) (s : GpSink) → KeysFit s → IsFit (start_commissioning f s)
unfolding start_commissioning
start_commissioning-IsFit f s k = ground (
  arith,
  set_sink_state-IsFit sink_com_in_progress (record s { gpf_comm_frame = f })
      (record { entry_key = k.entry_key; register_keys = k.register_keys }),
  source-IsPlain ezsp_gp_sink_table_find_or_allocate_entry f.source_id,
)

channel_request-IsFit :
    (f : GpFrame) (payload : List ℕ) (s : GpSink) (es : List Effect)
    → KeysFit s
    → All IsPlain es
    → IsFitRan (answer_channel_request f payload (s, es))
unfolding answer_channel_request
channel_request-IsFit f [] s es k ps = ground arith
channel_request-IsFit f (b ∷ rest) s es k ps =
    let reply : Effect = send_channel f.source_id 2000 0 s in
    ground
      (arith, All-append IsPlain es (reply ∷ []) ps (send_channel-IsPlain f.source_id 2000 0 s, tt))

no_security-IsFit :
    (f : GpFrame) (s : GpSink) → KeysFit s → IsFitRan (handle_incoming_no_security f s)
unfolding handle_incoming_no_security
no_security-IsFit f s k =
    let (s', es) = start_commissioning f s in
    let (k', ps) = start_commissioning-IsFit f s k in channel_request-IsFit f f.payload s' es k' ps

told_frame-IsPlain : (f : GpFrame) (s : GpSink) → All IsPlain (told_frame f s)
told_frame-IsPlain f s = ground arith

told_id-IsPlain : (f : GpFrame) (st : KeyStatus) (s : GpSink) → All IsPlain (told_gpd_id f st s)
told_id-IsPlain f st s = ground arith

security-IsFit : (f : GpFrame) (s : GpSink) → KeysFit s → IsFit (handle_incoming_security f s)
unfolding handle_incoming_security switch_channel
security-IsFit f s k =
    IsFit-then (switch_channel f s) (λ t. (t, told_frame f t))
      (ground
        (arith, send_channel-IsPlain f.source_id 1000 (u8 (s.gpd_sent_last_handler_nb + 1)) s))
      (λ t k'. (k', told_frame-IsPlain f t))

by_key-IsFit :
    (st : KeyStatus) (f : GpFrame) (s : GpSink) → KeysFit s → IsFitRan (handle_by_key st f s)
by_key-IsFit valid f s k = security-IsFit f s k
by_key-IsFit undefined f s k = (k, tt)
by_key-IsFit invalid f s k = (k, tt)

after-IsFit :
    (es : List Effect) (r : Ran GpSink) → All IsPlain es → IsFitRan r → IsFitRan (after es r)
after-IsFit es (ran s es') ps (k, ps') = (k, All-append IsPlain es es' ps ps')
after-IsFit es (thrown s es') ps (k, ps') = (k, All-append IsPlain es es' ps ps')

frame_received-IsFit :
    (f : GpFrame) (st : KeyStatus) (s : GpSink) → KeysFit s → IsFitRan (frame_received f st s)
unfolding frame_received
frame_received-IsFit f st s k =
    let told = told_id-IsPlain f st s in
    after-IsFit _ _ (All-append IsPlain (told_gpd_id f st s) (told_gpd_id f st s) told told)
      (ground (arith, no_security-IsFit f s k, by_key-IsFit st f s k))

received-IsFit :
    (o : Option GpFrame) (st : KeyStatus) (s : GpSink)
    → KeysFit s
    → IsFitRan (elim o [ none ↦ thrown s [] | some f ↦ frame_received f st s ])
received-IsFit none st s k = (k, tt)
received-IsFit (some f) st s k = frame_received-IsFit f st s k

incoming-IsFit : (msg : List ℕ) (s : GpSink) → KeysFit s → IsFitRan (handle_incoming_message msg s)
unfolding handle_incoming_message
incoming-IsFit msg s k = received-IsFit (read_gp_frame msg) _ s k

d_gp_sent-IsFit : (msg : List ℕ) (s : GpSink) → KeysFit s → IsFitRan (handle_d_gp_sent msg s)
unfolding handle_d_gp_sent
d_gp_sent-IsFit [] s k = (k, tt)
d_gp_sent-IsFit (a ∷ []) s k = (k, tt)
d_gp_sent-IsFit (a ∷ b ∷ rest) s k = ground arith

status-IsFit : (msg : List ℕ) (s : GpSink) → KeysFit s → IsFitRan (status_only msg s)
status-IsFit [] s k = (k, tt)
status-IsFit (a ∷ rest) s k = (k, tt)

-- Whatever message the adapter sends, the sink answers it only with commands of at most 250 bytes
-- that do not ask for the EZSP version, and the keys that it keeps have at most 16 bytes after it if
-- they have before it.
pub handle_ezsp_rx_message-IsFit :
    (aes : Aes) (cmd : ℕ) (msg : List ℕ) (s : GpSink)
    → KeysFit s
    → IsFitRan (handle_ezsp_rx_message aes cmd msg s)
unfolding handle_ezsp_rx_message
handle_ezsp_rx_message-IsFit aes cmd msg s k = ground (
  arith,
  get_network_parameters-IsFit s k msg,
  find_or_allocate-IsFit s k msg,
  sink_table_lookup-IsFit s k msg,
  sink_table_get_entry-IsFit s k aes msg,
  sink_table_set_entry-IsFit s k msg,
  proxy_table_lookup-IsFit s k msg,
  proxy_table_get_entry-IsFit s k msg,
  process_gp_pairing-IsFit s k msg,
  incoming-IsFit msg s k,
  d_gp_sent-IsFit msg s k,
  status-IsFit msg s k,
)

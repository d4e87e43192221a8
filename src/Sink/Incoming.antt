-- ===== src/Sink/Incoming.antt =====
-- The rest of CGpSink::handleEzspRxMessage (src/ezsp/zigbee-tools/green-power-sink.cpp): the Green
-- Power frames that the adapter receives, the end of a transmission, and which handler gets which
-- message.
use libezsp.Common.{ℕ, ◌+◌, ◌==◌, ◌!=◌, bit_and, bit_or, if◌then◌else◌, u8, ◌||◌, ◌&&◌}
use libezsp.Common.{Bool, true, List, [], ◌∷◌, ◌++◌, none, some, ltb, length}
use libezsp.ByteManip.{dble_u8_to_u16}
use libezsp.GpStruct.{source_id_address}
use libezsp.GpFrame.{GpFrame, read_gp_frame, gpd_no_security}
use libezsp.Commissioning.{Aes}
use libezsp.Structs.{byte}
use libezsp.Effects.{Effect, gp_frame_told, gpd_id_told, Ran, ran, thrown, returned, and_then}
use libezsp.Effects.{KeyStatus, undefined, valid, invalid, sink_com_open, sink_com_in_progress}
use libezsp.EzspEnum.{ember_success, wrong_mic_for_source_id, ezsp_gp_proxy_table_get_entry}
use libezsp.EzspEnum.{ezsp_get_network_parameters, ezsp_gpep_incoming_message_handler}
use libezsp.EzspEnum.{ezsp_gp_sink_table_find_or_allocate_entry, ezsp_gp_sink_table_lookup}
use libezsp.EzspEnum.{ezsp_gp_proxy_table_lookup, ezsp_gp_sink_table_get_entry}
use libezsp.EzspEnum.{ezsp_gp_sink_table_set_entry, ezsp_gp_proxy_table_process_gp_pairing}
use libezsp.EzspEnum.{ezsp_d_gp_send, ezsp_d_gp_sent_handler, ezsp_send_raw_message}
use libezsp.EzspEnum.{ezsp_raw_transmit_complete_handler}
use libezsp.Sink.{GpSink, is_in, set_sink_state, gp_sink_table_find_or_allocate_entry, gp_send}
use libezsp.Sink.Answers.{handle_get_network_parameters, handle_find_or_allocate_entry}
use libezsp.Sink.Answers.{handle_sink_table_lookup, handle_sink_table_get_entry}
use libezsp.Sink.Answers.{handle_sink_table_set_entry, handle_proxy_table_lookup}
use libezsp.Sink.Answers.{handle_proxy_table_get_entry, handle_process_gp_pairing}

abbrev pub gpf_manufacturer_attribute_reporting : ℕ
gpf_manufacturer_attribute_reporting = 0xa1

abbrev pub gpf_commissioning_cmd : ℕ
gpf_commissioning_cmd = 0xe0

abbrev pub gpf_channel_request_cmd : ℕ
gpf_channel_request_cmd = 0xe3

abbrev pub gpf_channel_configuration : ℕ
gpf_channel_configuration = 0xf3

-- `targetDot154Channel - 11U` in a byte.
abbrev pub channel_byte : GpSink → ℕ
channel_byte s = u8 (s.nwk_parameters.radio_channel + 245)

-- The frame that tells a device the channel: its source ID, the life time and the handle.
unfoldable pub send_channel : ℕ → ℕ → ℕ → GpSink → Effect
unfolding source_id_address
send_channel source_id i_life_time_ms i_handle s =
    gp_send true true (source_id_address source_id) gpf_channel_configuration
      (u8 (bit_or 0x10 (channel_byte s)) ∷ []) i_life_time_ms i_handle

-- The commissioning frame is saved while the sink looks for an entry.
unfoldable pub start_commissioning : GpFrame → GpSink → GpSink × List Effect
unfolding set_sink_state
start_commissioning gpf s =
    if is_in sink_com_open s && (gpf.command_id == gpf_commissioning_cmd)
    then and_then
        (record s { gpf_comm_frame = gpf }, gp_sink_table_find_or_allocate_entry gpf.source_id ∷ [])
        (set_sink_state sink_com_in_progress)
    else (s, [])

-- A channel request, after the state and effects of what came before.
unfoldable pub answer_channel_request : GpFrame → List ℕ → GpSink × List Effect → Ran GpSink
unfolding send_channel
answer_channel_request gpf payload (s, es) =
    if s.authorize_gpf_channel_rqst && (gpf.command_id == gpf_channel_request_cmd)
    then elim payload [
      | [] ↦ thrown s es
      | b ∷ rest ↦
          if u8 (bit_and b 0x0f) == channel_byte s
          then ran s (es ++ (send_channel gpf.source_id 2000 0 s ∷ []))
          else ran s es
    ]
    else ran s es

-- handleEzspRxMessage_INCOMING_MESSAGE_HANDLER_NO_SECURITY.
unfoldable pub handle_incoming_no_security : GpFrame → GpSink → Ran GpSink
unfolding start_commissioning answer_channel_request
handle_incoming_no_security gpf s =
    answer_channel_request gpf gpf.payload (start_commissioning gpf s)

abbrev pub is_channel_switch : GpFrame → Bool
is_channel_switch gpf =
    (gpf.command_id == gpf_manufacturer_attribute_reporting) && ltb 6 (length gpf.payload)

-- Manufacturer 0x1021, cluster 0, attribute 0x5000, type 0x20.
unfoldable pub is_channel_attribute : List ℕ → Bool
unfolding byte dble_u8_to_u16
is_channel_attribute p =
    (dble_u8_to_u16 (byte p 1) (byte p 0) == 0x1021)
    && (dble_u8_to_u16 (byte p 3) (byte p 2) == 0)
    && (dble_u8_to_u16 (byte p 5) (byte p 4) == 0x5000)
    && (byte p 6 == 0x20)

-- A channel switch is sent unless another one has not been acknowledged.
unfoldable pub switch_channel : GpFrame → GpSink → GpSink × List Effect
unfolding send_channel
switch_channel gpf s =
    let handler = u8 (s.gpd_sent_last_handler_nb + 1) in
    if is_channel_switch gpf
      && (s.sent_channel_switch_source_id == 0)
      && is_channel_attribute gpf.payload
    then (
      record s {
        gpd_sent_last_handler_nb = handler;
        sent_channel_switch_source_id = gpf.source_id;
      },
      send_channel gpf.source_id 1000 handler s ∷ [],
    )
    else (s, [])

-- The calls of the observer, where there is one.
abbrev pub told_frame : GpFrame → GpSink → List Effect
told_frame gpf s = if s.has_observer then gp_frame_told gpf ∷ [] else []

abbrev pub told_gpd_id : GpFrame → KeyStatus → GpSink → List Effect
told_gpd_id gpf status s =
    if s.has_observer
    then gpd_id_told gpf.source_id (gpf.proxy_table_entry != 0xff) status ∷ []
    else []

-- handleEzspRxMessage_INCOMING_MESSAGE_HANDLER_SECURITY.
unfoldable pub handle_incoming_security : GpFrame → GpSink → GpSink × List Effect
unfolding switch_channel
handle_incoming_security gpf s = and_then (switch_channel gpf s) (λ t. (t, told_frame gpf t))

unfoldable pub key_status : ℕ → KeyStatus
key_status status =
    if status == ember_success
    then valid
    else if status == wrong_mic_for_source_id
    then invalid
    else undefined

-- The effects of a handler after those of what came before it.
abbrev pub after {ℓ} : {S : Type ℓ} → List Effect → Ran S → Ran S
after es (ran s es') = ran s (es ++ es')
after es (thrown s es') = thrown s (es ++ es')

abbrev pub handle_by_key : KeyStatus → GpFrame → GpSink → Ran GpSink
handle_by_key valid gpf s = returned (handle_incoming_security gpf s)
handle_by_key undefined gpf s = ran s []
handle_by_key invalid gpf s = ran s []

-- The observer is told of the source ID twice.
unfoldable pub frame_received : GpFrame → KeyStatus → GpSink → Ran GpSink
unfolding handle_incoming_no_security handle_incoming_security
frame_received gpf status s = after (told_gpd_id gpf status s ++ told_gpd_id gpf status s) (
    if gpf.security == gpd_no_security
    then handle_incoming_no_security gpf s
    else handle_by_key status gpf s)

-- handleEzspRxMessage_INCOMING_MESSAGE_HANDLER.
unfoldable pub handle_incoming_message : List ℕ → GpSink → Ran GpSink
unfolding frame_received key_status
handle_incoming_message i_msg_receive s = elim (read_gp_frame i_msg_receive) [
  | none ↦ thrown s []
  | some gpf ↦ frame_received gpf (key_status (byte i_msg_receive 0)) s
]

-- EZSP_D_GP_SENT_HANDLER: a success for the handle that is waited for ends the channel switch.
unfoldable pub handle_d_gp_sent : List ℕ → GpSink → Ran GpSink
handle_d_gp_sent (status ∷ handle ∷ rest) s =
    if (status == ember_success)
      && (handle == s.gpd_sent_last_handler_nb)
      && (s.sent_channel_switch_source_id != 0)
    then ran
        (record s {
          sent_channel_switch_source_id = 0;
          gpd_sent_last_handler_nb = u8 (s.gpd_sent_last_handler_nb + 255);
        })
        []
    else ran s []
handle_d_gp_sent _ s = thrown s []

-- An answer of which only the status is printed.
abbrev pub status_only : List ℕ → GpSink → Ran GpSink
status_only [] s = thrown s []
status_only (status ∷ rest) s = ran s []

-- handleEzspRxMessage.
unfoldable pub handle_ezsp_rx_message : Aes → ℕ → List ℕ → GpSink → Ran GpSink
unfolding handle_d_gp_sent
handle_ezsp_rx_message aes i_cmd i_msg_receive s =
    if i_cmd == ezsp_gp_proxy_table_get_entry
    then handle_proxy_table_get_entry i_msg_receive s
    else if i_cmd == ezsp_get_network_parameters
    then handle_get_network_parameters i_msg_receive s
    else if i_cmd == ezsp_gpep_incoming_message_handler
    then handle_incoming_message i_msg_receive s
    else if i_cmd == ezsp_gp_sink_table_find_or_allocate_entry
    then handle_find_or_allocate_entry i_msg_receive s
    else if i_cmd == ezsp_gp_sink_table_lookup
    then handle_sink_table_lookup i_msg_receive s
    else if i_cmd == ezsp_gp_proxy_table_lookup
    then handle_proxy_table_lookup i_msg_receive s
    else if i_cmd == ezsp_gp_sink_table_get_entry
    then handle_sink_table_get_entry aes i_msg_receive s
    else if i_cmd == ezsp_gp_sink_table_set_entry
    then handle_sink_table_set_entry i_msg_receive s
    else if i_cmd == ezsp_gp_proxy_table_process_gp_pairing
    then returned (handle_process_gp_pairing i_msg_receive s)
    else if i_cmd == ezsp_d_gp_sent_handler
    then handle_d_gp_sent i_msg_receive s
    else if (i_cmd == ezsp_d_gp_send)
        || (i_cmd == ezsp_send_raw_message)
        || (i_cmd == ezsp_raw_transmit_complete_handler)
    then status_only i_msg_receive s
    else ran s []

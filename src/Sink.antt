-- ===== src/Sink.antt =====
-- src/ezsp/zigbee-tools/green-power-sink.cpp: CGpSink, which keeps the adapter's tables of Green Power
-- devices, built without USE_BUILTIN_MIC_PROCESSING (the default of src/ezsp/CMakeLists.txt). The
-- commands that are sent and the observers' calls are the effects of each operation.
pub mod Answers
pub mod Incoming
pub mod Fits
pub mod FitAnswers
pub mod FitIncoming
pub mod Runs
pub mod Registering
pub mod Builtin
pub mod Genuine
pub mod Channel
use libezsp.Common.{ℕ, ◌+◌, ◌==◌, bit_and, if◌then◌else◌, not, bool_to_u8, u8, ◌>>>◌, length, leb}
use libezsp.Common.{Bool, true, false, List, [], ◌∷◌, ◌++◌, Option, none, some}
use libezsp.Structs.NetworkParameters.{NetworkParameters, new_network_parameters}
use libezsp.Structs.SinkEntry.{SinkTableEntry, new_sink_table_entry, get_sink_table_entry_raw}
use libezsp.Structs.Pairing.{PairingParam, get_pairing_param}
use libezsp.GpStruct.{get_gp_address, source_id_address, GpAddress}
use libezsp.GpFrame.{GpFrame, new_gp_frame}
use libezsp.DeviceDb.{GpDevice}
use libezsp.Zcl.{e_dir_server_to_client}
use libezsp.ZigbeeMsg.{ZigbeeMsg, new_zigbee_msg, set_specific, send_unicast}
use libezsp.Effects.{Effect, sends, sink_state_told, SinkState, and_then}
use libezsp.Effects.{sink_not_init, sink_ready, sink_error, sink_com_open, sink_com_in_progress}
use libezsp.Effects.{sink_com_offline_in_progress, sink_authorize_answer_ch_rqst, sink_clear_all}
use libezsp.Effects.{sink_remove_in_progress}
use libezsp.EzspEnum.{ezsp_gp_sink_table_init, ezsp_get_network_parameters}
use libezsp.EzspEnum.{ezsp_gp_sink_table_clear_all, ezsp_gp_proxy_table_get_entry}
use libezsp.EzspEnum.{ezsp_gp_sink_table_find_or_allocate_entry, ezsp_gp_sink_table_get_entry}
use libezsp.EzspEnum.{ezsp_gp_sink_table_set_entry, ezsp_gp_sink_table_remove_entry}
use libezsp.EzspEnum.{ezsp_gp_proxy_table_lookup, ezsp_gp_sink_table_lookup, ezsp_d_gp_send}
use libezsp.EzspEnum.{ezsp_gp_proxy_table_process_gp_pairing}

-- `state_callback` is `obsStateCallback`, which asks to be cleared by `false`. The vectors, which are
-- used from the back, have their last element first.
pub record GpSink : Type 0 where
  pub sink_state : SinkState
  pub state_callback : Option (SinkState → Bool)
  pub nwk_parameters : NetworkParameters
  pub authorize_gpf_channel_rqst : Bool
  pub gpf_comm_frame : GpFrame
  pub sink_table_index : ℕ
  pub gpds_to_register : List GpDevice
  pub sink_table_entry : SinkTableEntry
  pub proxy_table_index : ℕ
  pub gpds_to_remove : List ℕ
  pub gpd_sent_last_handler_nb : ℕ
  pub sent_channel_switch_source_id : ℕ
  pub has_observer : Bool

unfoldable pub new_gp_sink : GpSink
unfolding new_network_parameters new_gp_frame new_sink_table_entry
new_gp_sink = record {
  sink_state = sink_not_init;
  state_callback = none;
  nwk_parameters = new_network_parameters;
  authorize_gpf_channel_rqst = false;
  gpf_comm_frame = new_gp_frame;
  sink_table_index = 0xff;
  gpds_to_register = [];
  sink_table_entry = new_sink_table_entry;
  proxy_table_index = 0;
  gpds_to_remove = [];
  gpd_sent_last_handler_nb = 0xff;
  sent_channel_switch_source_id = 0;
  has_observer = false;
}

-- enum values of CGpSink::State are compared by `==`.
abbrev pub sink_state_number : SinkState → ℕ
sink_state_number sink_not_init = 1
sink_state_number sink_ready = 2
sink_state_number sink_error = 3
sink_state_number sink_com_open = 4
sink_state_number sink_com_in_progress = 5
sink_state_number sink_com_offline_in_progress = 6
sink_state_number sink_authorize_answer_ch_rqst = 7
sink_state_number sink_clear_all = 8
sink_state_number sink_remove_in_progress = 9

abbrev pub is_in : SinkState → GpSink → Bool
is_in i_state s = sink_state_number s.sink_state == sink_state_number i_state

-- The callback is kept where it returns true.
abbrev pub kept_callback : Option (SinkState → Bool) → SinkState → Option (SinkState → Bool)
kept_callback none i_state = none
kept_callback (some f) i_state = if f i_state then some f else none

abbrev pub told_state : Option (SinkState → Bool) → SinkState → List Effect
told_state none i_state = []
told_state (some f) i_state = sink_state_told i_state ∷ []

-- setSinkState.
unfoldable pub set_sink_state : SinkState → GpSink → GpSink × List Effect
set_sink_state i_state s = (
  record s { sink_state = i_state; state_callback = kept_callback s.state_callback i_state },
  told_state s.state_callback i_state,
)

-- registerStateCallback.
unfoldable pub register_state_callback : (SinkState → Bool) → GpSink → GpSink
register_state_callback new_obs_state_callback s = record s {
  state_callback = some new_obs_state_callback;
}

-- registerObserver, of the one observer that the library has.
unfoldable pub register_observer : GpSink → GpSink × Bool
register_observer s = (record s { has_observer = true }, not s.has_observer)

unfoldable pub unregister_observer : GpSink → GpSink × Bool
unregister_observer s = (record s { has_observer = false }, s.has_observer)

-- authorizeAnswerToGpfChannelRqst.
unfoldable pub authorize_answer_to_gpf_channel_rqst : Bool → GpSink → GpSink
authorize_answer_to_gpf_channel_rqst i_allowed s = record s {
  authorize_gpf_channel_rqst = i_allowed;
}

unfoldable pub init : GpSink → GpSink × List Effect
unfolding set_sink_state
init s =
    and_then (s, sends ezsp_gp_sink_table_init [] ∷ sends ezsp_get_network_parameters [] ∷ [])
      (set_sink_state sink_ready)

abbrev pub gp_sink_table_find_or_allocate_entry : ℕ → Effect
gp_sink_table_find_or_allocate_entry i_src_id =
    sends ezsp_gp_sink_table_find_or_allocate_entry (get_gp_address (source_id_address i_src_id))

abbrev pub gp_sink_get_entry : ℕ → Effect
gp_sink_get_entry i_index = sends ezsp_gp_sink_table_get_entry (i_index ∷ [])

abbrev pub gp_sink_set_entry : ℕ → SinkTableEntry → Effect
gp_sink_set_entry i_index i_entry =
    sends ezsp_gp_sink_table_set_entry (i_index ∷ get_sink_table_entry_raw i_entry)

abbrev pub gp_proxy_table_process_gp_pairing : PairingParam → Effect
gp_proxy_table_process_gp_pairing i_param =
    sends ezsp_gp_proxy_table_process_gp_pairing (get_pairing_param i_param)

abbrev pub gp_sink_table_remove_entry : ℕ → Effect
gp_sink_table_remove_entry i_index = sends ezsp_gp_sink_table_remove_entry (i_index ∷ [])

abbrev pub gp_proxy_table_lookup : ℕ → Effect
gp_proxy_table_lookup i_src_id =
    sends ezsp_gp_proxy_table_lookup (get_gp_address (source_id_address i_src_id))

abbrev pub gp_sink_table_lookup : ℕ → Effect
gp_sink_table_lookup i_src_id =
    sends ezsp_gp_sink_table_lookup (get_gp_address (source_id_address i_src_id))

-- gpSend: the action, the channel assessment, the address, the command, its payload, the life time
-- and the handle. The length is cut to a byte; the payload is not.
unfoldable pub gp_send : Bool → Bool → GpAddress → ℕ → List ℕ → ℕ → ℕ → Effect
unfolding get_gp_address
gp_send i_action i_use_cca i_gp_addr i_gpd_command_id i_payload i_life_time_ms i_handle =
    sends ezsp_d_gp_send (
      (bool_to_u8 i_action ∷ bool_to_u8 i_use_cca ∷ [])
      ++ get_gp_address i_gp_addr
      ++ (i_gpd_command_id ∷ (if leb 256 (length i_payload) then 0xff else length i_payload) ∷ [])
      ++ i_payload
      ++ (i_handle
          ∷ u8 (bit_and i_life_time_ms 0xff)
          ∷ u8 (bit_and (u8 (i_life_time_ms >>> 8)) 0xff)
          ∷ []))

-- The message of sendLocalGPProxyCommissioningMode: endpoint 242, cluster 0x0021, command 2.
unfoldable pub commissioning_mode_msg : ℕ → ZigbeeMsg
unfolding new_zigbee_msg set_specific
commissioning_mode_msg i_option =
    let m =
      set_specific 0xa1e0 0xffff 242 0x0021 0x02 e_dir_server_to_client (i_option ∷ []) 0 0
        new_zigbee_msg in
    record m { aps = record (m.aps) { src_ep = 242 } }

unfoldable pub send_local_gp_proxy_commissioning_mode : ℕ → Effect
unfolding commissioning_mode_msg
send_local_gp_proxy_commissioning_mode i_option = send_unicast 0 (commissioning_mode_msg i_option)

unfoldable pub open_commissioning_session : GpSink → GpSink × List Effect
unfolding set_sink_state
open_commissioning_session s =
    and_then (s, send_local_gp_proxy_commissioning_mode 0x05 ∷ []) (set_sink_state sink_com_open)

unfoldable pub close_commissioning_session : GpSink → GpSink × List Effect
unfolding set_sink_state
close_commissioning_session s =
    and_then (s, send_local_gp_proxy_commissioning_mode 0x00 ∷ []) (set_sink_state sink_ready)

-- What a request returns beside its effects.
abbrev pub answering : Bool → GpSink × List Effect → GpSink × List Effect × Bool
answering b (s, es) = (s, es, b)

unfoldable pub gp_clear_all_tables : GpSink → GpSink × List Effect × Bool
unfolding set_sink_state
gp_clear_all_tables s =
    if is_in sink_ready s
    then answering true (
        and_then (set_sink_state sink_clear_all s) (λ t. (
          t,
          sends ezsp_gp_sink_table_clear_all [] ∷ sends ezsp_gp_proxy_table_get_entry (0 ∷ []) ∷ [],
        )))
    else (s, [], false)

unfoldable pub clear_all_gpds : GpSink → GpSink × List Effect × Bool
unfolding gp_clear_all_tables
clear_all_gpds s = if is_in sink_ready s then gp_clear_all_tables s else (s, [], false)

-- registerGpds; the devices are given with the last one first.
unfoldable pub register_gpds : List GpDevice → GpSink → GpSink × List Effect × Bool
unfolding set_sink_state
register_gpds gpd s =
    if is_in sink_ready s
    then elim gpd [
      | [] ↦ (s, [], false)
      | g ∷ gs ↦ answering true (
          and_then (set_sink_state sink_com_offline_in_progress s) (λ t. (
            record t { gpds_to_register = g ∷ gs },
            gp_sink_table_find_or_allocate_entry g.source_id ∷ [],
          )))
    ]
    else (s, [], false)

-- removeGpds; the source IDs are given with the last one first.
unfoldable pub remove_gpds : List ℕ → GpSink → GpSink × List Effect × Bool
unfolding set_sink_state
remove_gpds gpd s =
    if is_in sink_ready s
    then elim gpd [
      | [] ↦ (s, [], false)
      | g ∷ gs ↦ answering true (
          and_then (set_sink_state sink_remove_in_progress s)
            (λ t. (record t { gpds_to_remove = g ∷ gs }, gp_sink_table_lookup g ∷ [])))
    ]
    else (s, [], false)

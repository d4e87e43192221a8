-- ===== src/Sink/Answers.antt =====
-- The handlers of CGpSink (src/ezsp/zigbee-tools/green-power-sink.cpp) for the adapter's answers: the
-- tables are read, changed and cleared one entry at a time, each answer asking for the next.
use libezsp.Common.{ℕ, ◌+◌, ◌==◌, ◌!=◌, bit_and, if◌then◌else◌, u8, ◌||◌, drop}
use libezsp.Common.{Bool, true, false, List, [], ◌∷◌, ◌++◌, none, some, replicate}
use libezsp.Structs.NetworkParameters.{read_network_parameters_response}
use libezsp.Structs.SinkEntry.{SinkTableEntry, read_sink_table_entry, set_entry_active}
use libezsp.Structs.SinkEntry.{device_sink_option, device_security_option, address_source_id}
use libezsp.Structs.Pairing.{removal_param, entry_param, read_proxy_entry_address}
use libezsp.Commissioning.{Aes, CommissioningPayload, read_commissioning, commissioning_option}
use libezsp.GpStruct.{source_id_address, read_sink_option}
use libezsp.GpStruct.{new_gp_address}
use libezsp.DeviceDb.{GpDevice}
use libezsp.Effects.{Effect, sends, Ran, ran, thrown, returned, and_then}
use libezsp.Effects.{sink_ready, sink_com_in_progress, sink_com_offline_in_progress}
use libezsp.Effects.{sink_clear_all, sink_remove_in_progress}
use libezsp.EzspEnum.{ember_success, ezsp_gp_proxy_table_get_entry}
use libezsp.Sink.{GpSink, is_in, set_sink_state, gp_sink_get_entry, gp_sink_set_entry}
use libezsp.Sink.{gp_sink_table_find_or_allocate_entry, gp_proxy_table_process_gp_pairing}
use libezsp.Sink.{gp_sink_table_remove_entry, gp_proxy_table_lookup, gp_sink_table_lookup}
use libezsp.Sink.{close_commissioning_session}

-- handleEzspRxMessage_GET_NETWORK_PARAMETERS.
unfoldable pub handle_get_network_parameters : List ℕ → GpSink → Ran GpSink
unfolding read_network_parameters_response
handle_get_network_parameters i_msg_receive s =
    elim (read_network_parameters_response i_msg_receive) [
      | none ↦ thrown s []
      | some rsp ↦
          if rsp.status == ember_success
          then ran (record s { nwk_parameters = rsp.parameters }) []
          else ran s []
    ]

abbrev pub is_registering : GpSink → Bool
is_registering s = is_in sink_com_in_progress s || is_in sink_com_offline_in_progress s

unfoldable pub index_allocated : ℕ → GpSink → GpSink × List Effect
unfolding set_sink_state
index_allocated index s =
    if index != 0xff
    then (record s { sink_table_index = index }, gp_sink_get_entry index ∷ [])
    else set_sink_state sink_ready (record s { sink_table_index = index })

-- handleEzspRxMessage_SINK_TABLE_FIND_OR_ALLOCATE_ENTRY.
unfoldable pub handle_find_or_allocate_entry : List ℕ → GpSink → Ran GpSink
unfolding index_allocated
handle_find_or_allocate_entry [] s = if is_registering s then thrown s [] else ran s []
handle_find_or_allocate_entry (index ∷ rest) s =
    if is_registering s then returned (index_allocated index s) else ran s []

-- The lookup in the proxy table that follows, for the device that is removed.
abbrev pub lookup_in_proxy_table : List ℕ → List Effect
lookup_in_proxy_table [] = []
lookup_in_proxy_table (g ∷ gs) = gp_proxy_table_lookup g ∷ []

-- handleEzspRxMessage_SINK_TABLE_LOOKUP.
unfoldable pub handle_sink_table_lookup : List ℕ → GpSink → Ran GpSink
handle_sink_table_lookup [] s = if is_in sink_remove_in_progress s then thrown s [] else ran s []
handle_sink_table_lookup (index ∷ rest) s =
    if is_in sink_remove_in_progress s
    then ran s (
        (if index != 0xff then gp_sink_table_remove_entry index ∷ [] else [])
        ++ lookup_in_proxy_table s.gpds_to_remove)
    else ran s []

-- The entry of the device that sends the commissioning frame.
unfoldable pub commissioned_entry : CommissioningPayload → ℕ → SinkTableEntry → SinkTableEntry
unfolding source_id_address commissioning_option set_entry_active
commissioned_entry p source_id e =
    let l_gp_addr = source_id_address source_id in
    record (set_entry_active true e) {
      device_id = p.device_id;
      assigned_alias = bit_and source_id 0xffff;
      security_options = bit_and p.extended_options 0x1f;
      gpd_security_frame_counter = p.out_frame_counter;
      gpd_key = p.key;
      options = commissioning_option l_gp_addr.application_id p;
      gpd = l_gp_addr;
    }

-- The entry of the device that is registered; without a device only the defaults are stored.
unfoldable pub registered_entry : List GpDevice → SinkTableEntry → SinkTableEntry
unfolding source_id_address set_entry_active device_sink_option new_gp_address read_sink_option
registered_entry [] e = record (set_entry_active true e) {
  options = read_sink_option 0;
  gpd = new_gp_address;
}
registered_entry (g ∷ gs) e =
    let l_gp_addr = source_id_address g.source_id in
    record (set_entry_active true e) {
      assigned_alias = bit_and (address_source_id l_gp_addr) 0xffff;
      security_options = device_security_option;
      gpd_security_frame_counter = 0;
      gpd_key = g.key;
      options = device_sink_option;
      gpd = l_gp_addr;
    }

-- gpSinkSetEntry, and the entry is saved.
abbrev pub store_entry : SinkTableEntry → GpSink → Ran GpSink
store_entry e s =
    ran (record s { sink_table_entry = e }) (gp_sink_set_entry s.sink_table_index e ∷ [])

unfoldable pub entry_found : Aes → SinkTableEntry → GpSink → Ran GpSink
unfolding commissioned_entry registered_entry
entry_found aes e s =
    if is_in sink_com_in_progress s
    then elim (read_commissioning aes s.gpf_comm_frame.payload s.gpf_comm_frame.source_id) [
      | none ↦ thrown s []
      | some p ↦ store_entry (commissioned_entry p s.gpf_comm_frame.source_id e) s
    ]
    else if is_in sink_com_offline_in_progress s
    then store_entry (registered_entry s.gpds_to_register e) s
    else ran s []

-- handleEzspRxMessage_SINK_TABLE_GET_ENTRY.
unfoldable pub handle_sink_table_get_entry : Aes → List ℕ → GpSink → Ran GpSink
unfolding entry_found
handle_sink_table_get_entry aes i_msg_receive s =
    elim (read_sink_table_entry (drop 1 i_msg_receive)) [
      | none ↦ thrown s []
      | some e ↦ entry_found aes e s
    ]

unfoldable pub entry_set : ℕ → GpSink → GpSink × List Effect
unfolding set_sink_state entry_param
entry_set status s = if status != ember_success then set_sink_state sink_ready s else (
  s,
  gp_proxy_table_process_gp_pairing (entry_param s.sink_table_entry true false 0 (replicate 8 0))
      ∷ [],
)

-- handleEzspRxMessage_SINK_TABLE_SET_ENTRY.
unfoldable pub handle_sink_table_set_entry : List ℕ → GpSink → Ran GpSink
unfolding entry_set
handle_sink_table_set_entry [] s = if is_registering s then thrown s [] else ran s []
handle_sink_table_set_entry (status ∷ rest) s =
    if is_registering s then returned (entry_set status s) else ran s []

-- The device at the back is done: the next one, or the sink is ready again.
unfoldable pub remove_next : List ℕ → GpSink → GpSink × List Effect
unfolding set_sink_state
remove_next [] s = set_sink_state sink_ready (record s { gpds_to_remove = [] })
remove_next (g ∷ gs) s = (record s { gpds_to_remove = g ∷ gs }, gp_sink_table_lookup g ∷ [])

unfoldable pub proxy_looked_up : ℕ → List ℕ → GpSink → GpSink × List Effect
unfolding remove_next removal_param
proxy_looked_up index [] s = remove_next [] s
proxy_looked_up index (g ∷ gs) s =
    and_then
      (s, if index != 0xff then gp_proxy_table_process_gp_pairing (removal_param g) ∷ [] else [])
      (remove_next gs)

-- handleEzspRxMessage_PROXY_TABLE_LOOKUP.
unfoldable pub handle_proxy_table_lookup : List ℕ → GpSink → Ran GpSink
unfolding proxy_looked_up
handle_proxy_table_lookup [] s = if is_in sink_remove_in_progress s then thrown s [] else ran s []
handle_proxy_table_lookup (index ∷ rest) s =
    if is_in sink_remove_in_progress s
    then returned (proxy_looked_up index s.gpds_to_remove s)
    else ran s []

unfoldable pub proxy_entry_found : ℕ → List ℕ → GpSink → Ran GpSink
unfolding set_sink_state removal_param
proxy_entry_found status rest s =
    if status == ember_success
    then elim (read_proxy_entry_address rest) [
      | none ↦ thrown s []
      | some g ↦
          ran s (gp_proxy_table_process_gp_pairing (removal_param (address_source_id g)) ∷ [])
    ]
    else returned (set_sink_state sink_ready s)

-- handleEzspRxMessage_PROXY_TABLE_GET_ENTRY.
unfoldable pub handle_proxy_table_get_entry : List ℕ → GpSink → Ran GpSink
unfolding proxy_entry_found
handle_proxy_table_get_entry [] s = if is_in sink_clear_all s then thrown s [] else ran s []
handle_proxy_table_get_entry (status ∷ rest) s =
    if is_in sink_clear_all s then proxy_entry_found status rest s else ran s []

-- The device at the back is paired: the next one, or the sink is ready again.
unfoldable pub register_next : List GpDevice → GpSink → GpSink × List Effect
unfolding set_sink_state
register_next [] s = set_sink_state sink_ready (record s { gpds_to_register = [] })
register_next (g ∷ gs) s =
    (record s { gpds_to_register = g ∷ gs }, gp_sink_table_find_or_allocate_entry g.source_id ∷ [])

-- handleEzspRxMessage_PROXY_TABLE_PROCESS_GP_PAIRING. The first byte of the message is only printed;
-- in an empty message the code reads past its end for that, and what it reads changes nothing else.
unfoldable pub handle_process_gp_pairing : List ℕ → GpSink → GpSink × List Effect
unfolding close_commissioning_session register_next
handle_process_gp_pairing i_msg_receive s =
    if is_in sink_com_in_progress s
    then close_commissioning_session s
    else if is_in sink_com_offline_in_progress s
    then register_next (drop 1 s.gpds_to_register) s
    else if is_in sink_clear_all s
    then (
      record s { proxy_table_index = u8 (s.proxy_table_index + 1) },
      sends ezsp_gp_proxy_table_get_entry (u8 (s.proxy_table_index + 1) ∷ []) ∷ [],
    )
    else (s, [])

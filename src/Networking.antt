-- ===== src/Networking.antt =====
-- src/ezsp/zigbee-tools/zigbee-networking.cpp: CZigbeeNetworking, which configures the adapter's
-- stack and forms, joins and leaves networks. The numbers that the random engine draws are arguments.
pub mod Fits
use libezsp.Common.{ℕ, ◌+◌, ◌%◌, ◌==◌, bit_and, if◌then◌else◌, u8, replicate, ◌||◌}
use libezsp.Common.{Bool, true, false, List, [], ◌∷◌, ◌++◌, map, Option, none, some}
use libezsp.ByteManip.{u16_get_lo_u8, u16_get_hi_u8}
use libezsp.Structs.NetworkParameters.{NetworkParameters, new_network_parameters}
use libezsp.Structs.NetworkParameters.{get_network_parameters_raw}
use libezsp.Structs.Adapter.{ChildData, read_child_data}
use libezsp.ZigbeeMsg.{new_zigbee_msg, set_zdo, send_broadcast}
use libezsp.Effects.{Effect, sends, child_found, Ran, ran, thrown}
use libezsp.EzspEnum.{ezsp_permit_joining, ezsp_send_broadcast, ezsp_get_child_data, ember_success}
use libezsp.EzspEnum.{ezsp_set_initial_security_state, ezsp_set_configuration_value}
use libezsp.EzspEnum.{ezsp_add_endpoint, ezsp_network_init, ezsp_form_network, ezsp_join_network}
use libezsp.EzspEnum.{ezsp_leave_network, ezsp_network_state, ezsp_set_policy, ember_router}

pub record ZigbeeNetworking : Type 0 where
  pub child_idx : ℕ
  pub has_discover_callback : Bool
  pub form_channel : ℕ
  pub join_nwk_params : NetworkParameters

unfoldable pub new_zigbee_networking : ZigbeeNetworking
unfolding new_network_parameters
new_zigbee_networking = record {
  child_idx = 0;
  has_discover_callback = false;
  form_channel = 11;
  join_nwk_params = new_network_parameters;
}

-- SEzspConfig and SEzspPolicy.
pub record EzspConfig : Type 0 where
  pub id : ℕ
  pub value : ℕ

pub record EzspPolicy : Type 0 where
  pub id : ℕ
  pub decision : ℕ

abbrev pub set_config : EzspConfig → Effect
set_config c =
    sends ezsp_set_configuration_value (c.id ∷ u16_get_lo_u8 c.value ∷ u16_get_hi_u8 c.value ∷ [])

abbrev pub set_policy : EzspPolicy → Effect
set_policy p = sends ezsp_set_policy (p.id ∷ p.decision ∷ [])

abbrev pub gateway_endpoint : List ℕ
gateway_endpoint = 1 ∷ 0x04 ∷ 0x01 ∷ 0x07 ∷ 0x00 ∷ 0 ∷ 1 ∷ 1 ∷ 0 ∷ 0 ∷ 0 ∷ 0 ∷ []

abbrev pub green_power_endpoint : List ℕ
green_power_endpoint = 242 ∷ 0x0e ∷ 0xa1 ∷ 0x64 ∷ 0x00 ∷ 0 ∷ 1 ∷ 1 ∷ 0x21 ∷ 0 ∷ 0x21 ∷ 0 ∷ []

unfoldable pub stack_init : List EzspConfig → List EzspPolicy → List Effect
stack_init l_config l_policy =
    map set_config l_config
    ++ map set_policy l_policy
    ++ (sends ezsp_add_endpoint gateway_endpoint
        ∷ sends ezsp_add_endpoint green_power_endpoint
        ∷ [])

unfoldable pub set_network_to_join : NetworkParameters → ZigbeeNetworking → ZigbeeNetworking
set_network_to_join nwk_params n = record n { join_nwk_params = nwk_params }

-- joinNetwork of one argument.
unfoldable pub join_network : NetworkParameters → List Effect
join_network nwk_params =
    sends ezsp_join_network (ember_router ∷ get_network_parameters_raw nwk_params) ∷ []

-- joinNetwork without an argument.
unfoldable pub join_preset_network : ZigbeeNetworking → List Effect
unfolding join_network
join_preset_network n = join_network n.join_nwk_params

abbrev pub ha_key : List ℕ
ha_key =
    0x5a ∷ 0x69 ∷ 0x67 ∷ 0x42 ∷ 0x65 ∷ 0x65 ∷ 0x41 ∷ 0x6c ∷ 0x6c ∷ 0x69 ∷ 0x61 ∷ 0x6e ∷ 0x63 ∷ 0x65
    ∷ 0x30 ∷ 0x39 ∷ []

abbrev pub security_bitmask : ℕ
security_bitmask = 0x0b04

-- formHaNetwork; the sixteen bytes that are drawn for the network key come first.
unfoldable pub form_ha_network : List ℕ → ℕ → ZigbeeNetworking → ZigbeeNetworking × List Effect
form_ha_network drawn channel n = (
  record n { form_channel = channel },
  sends ezsp_set_policy (0 ∷ 0x01 ∷ [])
      ∷ sends ezsp_set_policy (5 ∷ 0x50 ∷ [])
      ∷ sends ezsp_set_initial_security_state (
          (u16_get_lo_u8 security_bitmask ∷ u16_get_hi_u8 security_bitmask ∷ [])
          ++ ha_key
          ++ map (λ b. bit_and b 0xff) drawn
          ++ (0 ∷ [])
          ++ replicate 8 0)
      ∷ [],
)

unfoldable pub open_network : ℕ → List Effect
unfolding new_zigbee_msg set_zdo
open_network i_timeout =
    sends ezsp_permit_joining (i_timeout ∷ [])
    ∷ send_broadcast 0xffff 0 (set_zdo 0x0036 (i_timeout ∷ 1 ∷ []) 0 new_zigbee_msg)
    ∷ []

unfoldable pub close_network : List Effect
unfolding new_zigbee_msg set_zdo
close_network =
    sends ezsp_permit_joining (0x00 ∷ [])
    ∷ send_broadcast 0xffff 0 (set_zdo 0x0036 (0x00 ∷ 0x01 ∷ []) 0 new_zigbee_msg)
    ∷ []

unfoldable pub leave_network : List Effect
leave_network = sends ezsp_leave_network [] ∷ []

-- startDiscoverProduct, with a callback.
unfoldable pub start_discover_product : ZigbeeNetworking → ZigbeeNetworking × List Effect
start_discover_product n = (
  record n { child_idx = 0; has_discover_callback = true },
  sends ezsp_get_child_data (0 ∷ []) ∷ [],
)

-- The parameters of the network that is formed; `drawn_pan_id` is the number that is drawn.
unfoldable pub parameters_to_form : ℕ → ZigbeeNetworking → NetworkParameters
unfolding new_network_parameters
parameters_to_form drawn_pan_id n = record new_network_parameters {
  pan_id = bit_and drawn_pan_id 0xffff;
  radio_tx_power = 3;
  radio_channel = n.form_channel;
  join_method = 0;
}

-- The next child is asked for, with an index that wraps around.
unfoldable pub next_child : ChildData → ZigbeeNetworking → ZigbeeNetworking × List Effect
next_child c n = (
  record n { child_idx = u8 (n.child_idx + 1) },
  (if n.has_discover_callback then child_found c.node_type c.eui64 c.id ∷ [] else [])
      ++ (sends ezsp_get_child_data (u8 (n.child_idx + 1) ∷ []) ∷ []),
)

unfoldable pub handle_child_data : List ℕ → ZigbeeNetworking → Ran ZigbeeNetworking
unfolding next_child
handle_child_data [] n = thrown n []
handle_child_data (status ∷ rest) n =
    if status == ember_success
    then elim (read_child_data rest) [
      | none ↦ thrown n []
      | some c ↦ ran (next_child c n).0 (next_child c n).1
    ]
    else ran n []

unfoldable pub handle_security_state : ℕ → List ℕ → ZigbeeNetworking → Ran ZigbeeNetworking
unfolding parameters_to_form
handle_security_state drawn_pan_id [] n = thrown n []
handle_security_state drawn_pan_id (status ∷ rest) n =
    if status == ember_success
    then ran n (
        sends ezsp_form_network (get_network_parameters_raw (parameters_to_form drawn_pan_id n))
        ∷ [])
    else ran n []

-- A response of which only the status is printed.
abbrev pub status_only : List ℕ → ZigbeeNetworking → Ran ZigbeeNetworking
status_only [] n = thrown n []
status_only (status ∷ rest) n = ran n []

-- handleEzspRxMessage. A child's entry that is cut short throws before anything is changed.
unfoldable pub handle_ezsp_rx_message : ℕ → ℕ → List ℕ → ZigbeeNetworking → Ran ZigbeeNetworking
unfolding handle_child_data handle_security_state
handle_ezsp_rx_message drawn_pan_id i_cmd i_msg_receive n =
    if i_cmd == ezsp_get_child_data
    then handle_child_data i_msg_receive n
    else if i_cmd == ezsp_set_initial_security_state
    then handle_security_state drawn_pan_id i_msg_receive n
    else if i_cmd == ezsp_add_endpoint
    then ran n (sends ezsp_network_init [] ∷ [])
    else if i_cmd == ezsp_network_init
    then ran n (sends ezsp_network_state [] ∷ [])
    else if (i_cmd == ezsp_permit_joining)
        || (i_cmd == ezsp_send_broadcast)
        || (i_cmd == ezsp_set_configuration_value)
        || (i_cmd == ezsp_form_network)
        || (i_cmd == ezsp_join_network)
        || (i_cmd == ezsp_leave_network)
    then status_only i_msg_receive n
    else ran n []

-- ===== src/ZigbeeMsg.antt =====
-- src/ezsp/zbmessage/zigbee-message.cpp: CZigBeeMsg, an APS header, an optional ZCL header and a
-- payload; and src/ezsp/zigbee-tools/zigbee-messaging.cpp: CZigbeeMessaging, which sends it.
use libezsp.Common.{ℕ, ◌!=◌, bit_and, if◌then◌else◌, u8, ◌>>>◌, drop}
use libezsp.Common.{Bool, true, false, List, [], ◌∷◌, ◌++◌, Option, none, some, length}
use libezsp.Aps.{ApsFrame, new_aps_frame, set_default_aps, get_ember_aps, set_ember_aps}
use libezsp.Zcl.{ZclHeader, new_zcl_header, set_public_specific, set_public_general}
use libezsp.Zcl.{get_zcl_header, read_zcl_header}
use libezsp.Effects.{Effect, sends}
use libezsp.EzspEnum.{ezsp_send_broadcast, ezsp_send_unicast}
use mathlib.Core.Option

pub record ZigbeeMsg : Type 0 where
  pub aps : ApsFrame
  pub zcl_header : ZclHeader
  pub use_zcl_header : Bool
  pub payload : List ℕ

unfoldable pub new_zigbee_msg : ZigbeeMsg
unfolding new_aps_frame new_zcl_header
new_zigbee_msg = record {
  aps = new_aps_frame;
  zcl_header = new_zcl_header;
  use_zcl_header = false;
  payload = [];
}

-- SetSpecific: the profile, the manufacturer's code, the endpoint, the cluster, the command, the
-- direction, the payload, the transaction's number and the group.
unfoldable pub set_specific : ℕ → ℕ → ℕ → ℕ → ℕ → ℕ → List ℕ → ℕ → ℕ → ZigbeeMsg → ZigbeeMsg
unfolding set_default_aps set_public_specific new_zcl_header
set_specific profile code endpoint cluster cmd direction payload number group m = record m {
  aps = set_default_aps profile cluster endpoint group m.aps;
  zcl_header = set_public_specific code cmd direction number new_zcl_header;
  use_zcl_header = true;
  payload = payload;
}

-- SetGeneral, with the arguments of `set_specific`.
unfoldable pub set_general : ℕ → ℕ → ℕ → ℕ → ℕ → ℕ → List ℕ → ℕ → ℕ → ZigbeeMsg → ZigbeeMsg
unfolding set_default_aps set_public_general new_zcl_header
set_general profile code endpoint cluster cmd direction payload number group m = record m {
  aps = set_default_aps profile cluster endpoint group m.aps;
  zcl_header = set_public_general code cmd direction number new_zcl_header;
  use_zcl_header = true;
  payload = payload;
}

-- SetZdo.
unfoldable pub set_zdo : ℕ → List ℕ → ℕ → ZigbeeMsg → ZigbeeMsg
unfolding set_default_aps new_zcl_header
set_zdo i_cmd_id i_payload i_transaction_number m = record m {
  aps = set_default_aps 0x0000 i_cmd_id 0x00 0 m.aps;
  zcl_header = new_zcl_header;
  use_zcl_header = false;
  payload = i_transaction_number ∷ i_payload;
}

-- What Set does of the message once the APS header is read. The payload is appended.
unfoldable pub set_message : ApsFrame → List ℕ → ZigbeeMsg → Option ZigbeeMsg
set_message aps i_msg m =
    if aps.src_ep != 0
    then Option.map
        (λ (h, l_idx). record m {
          aps = aps;
          zcl_header = h;
          use_zcl_header = true;
          payload = m.payload ++ drop l_idx i_msg;
        })
        (read_zcl_header i_msg)
    else some (record m { aps = aps; use_zcl_header = false; payload = m.payload ++ i_msg })

-- Set; `none` where `at()` throws.
unfoldable pub set_raw : List ℕ → List ℕ → ZigbeeMsg → Option ZigbeeMsg
unfolding set_message
set_raw i_aps i_msg m = elim (set_ember_aps i_aps) [ none ↦ none | some a ↦ set_message a i_msg m ]

-- Get.
unfoldable pub get_message : ZigbeeMsg → List ℕ
get_message m = (if m.use_zcl_header then get_zcl_header m.zcl_header else []) ++ m.payload

-- SendBroadcast. The cast to a byte stands before the mask.
unfoldable pub send_broadcast : ℕ → ℕ → ZigbeeMsg → Effect
send_broadcast i_destination i_radius i_msg =
    let l_zb_msg = get_message i_msg in
    sends ezsp_send_broadcast (
      u8 (bit_and i_destination 0xff)
        ∷ u8 (bit_and (u8 (i_destination >>> 8)) 0xff)
        ∷ get_ember_aps i_msg.aps
      ++ (i_radius ∷ 0 ∷ u8 (length l_zb_msg) ∷ l_zb_msg))

-- SendUnicast; EMBER_OUTGOING_DIRECT is 0.
unfoldable pub send_unicast : ℕ → ZigbeeMsg → Effect
send_unicast i_node_id i_msg =
    let l_zb_msg = get_message i_msg in
    sends ezsp_send_unicast (
      0
        ∷ u8 (bit_and i_node_id 0xff)
        ∷ u8 (bit_and (u8 (i_node_id >>> 8)) 0xff)
        ∷ get_ember_aps i_msg.aps
      ++ (0 ∷ u8 (length l_zb_msg) ∷ l_zb_msg))

-- SendZDOCommand.
unfoldable pub send_zdo_command : ℕ → ℕ → List ℕ → Effect
unfolding send_unicast set_zdo new_zigbee_msg
send_zdo_command i_node_id i_cmd_id payload =
    send_unicast i_node_id (set_zdo i_cmd_id payload 0 new_zigbee_msg)

-- ===== src/EzspEnum/Names.antt =====
-- How the values of the enumerations are printed (src/ezsp/ezsp-protocol/ezsp-enum.cpp).
use libezsp.Common.{ℕ, ◌==◌, if◌then◌else◌, List, [], ◌∷◌, ◌++◌, codes}
use libezsp.Common.{Option, none, some}
use libezsp.AdapterVersion.Printing.{number_text, decimal}
use libezsp.EzspEnum.Commands.{NameTable, ezsp_cmd_names}

abbrev pub ember_node_type_names : NameTable
ember_node_type_names =
    (0x00, codes "EMBER_UNKNOWN_DEVICE")
    ∷ (0x01, codes "EMBER_COORDINATOR")
    ∷ (0x02, codes "EMBER_ROUTER")
    ∷ (0x03, codes "EMBER_END_DEVICE")
    ∷ (0x04, codes "EMBER_SLEEPY_END_DEVICE")
    ∷ []

abbrev pub ember_status_names : NameTable
ember_status_names =
    (0x00, codes "EMBER_SUCCESS")
    ∷ (0x01, codes "EMBER_ERR_FATAL")
    ∷ (0x18, codes "EMBER_NO_BUFFERS")
    ∷ (0x31, codes "EMBER_MAC_NO_DATA")
    ∷ (0x35, codes "EMBER_MAC_INVALID_CHANNEL_MASK")
    ∷ (0x3d, codes "EMBER_MAC_SCANNING")
    ∷ (0x40, codes "EMBER_MAC_NO_ACK_RECEIVED")
    ∷ (0x66, codes "EMBER_DELIVERY_FAILED")
    ∷ (0x70, codes "EMBER_INVALID_CALL")
    ∷ (0x72, codes "EMBER_MAX_MESSAGE_LIMIT_REACHED")
    ∷ (0x76, codes "EMBER_ADDRESS_TABLE_ENTRY_IS_ACTIVE")
    ∷ (0x90, codes "EMBER_NETWORK_UP")
    ∷ (0x91, codes "EMBER_NETWORK_DOWN")
    ∷ (0x93, codes "EMBER_NOT_JOINED")
    ∷ (0x94, codes "EMBER_JOIN_FAILED")
    ∷ (0x9c, codes "EMBER_NETWORK_OPENED")
    ∷ (0x9d, codes "EMBER_NETWORK_CLOSED")
    ∷ (0x96, codes "EMBER_MOVE_FAILED")
    ∷ (0xa1, codes "EMBER_NETWORK_BUSY")
    ∷ (0xa8, codes "EMBER_SECURITY_STATE_NOT_SET")
    ∷ (0xab, codes "EMBER_NO_BEACONS")
    ∷ (0xac, codes "EMBER_RECEIVED_KEY_IN_THE_CLEAR")
    ∷ (0xad, codes "EMBER_NO_NETWORK_KEY_RECEIVED")
    ∷ (0x7e, codes "UNDOCUMENTED_WRONG_MIC_FOR_SOURCE_ID")
    ∷ (0x7f, codes "UNDOCUMENTED_UNKNOWN_KEY_FOR_SOURCE_ID")
    ∷ []

abbrev pub ember_join_method_names : NameTable
ember_join_method_names =
    (0x00, codes "EMBER_USE_MAC_ASSOCIATION")
    ∷ (0x01, codes "EMBER_USE_NWK_REJOIN")
    ∷ (0x02, codes "EMBER_USE_NWK_REJOIN_HAVE_NWK_KEY")
    ∷ (0x03, codes "EMBER_USE_NWK_COMMISSIONING")
    ∷ []

abbrev pub ember_key_type_names : NameTable
ember_key_type_names =
    (0x01, codes "EMBER_TRUST_CENTER_LINK_KEY")
    ∷ (0x03, codes "EMBER_CURRENT_NETWORK_KEY")
    ∷ (0x04, codes "EMBER_NEXT_NETWORK_KEY")
    ∷ (0x05, codes "EMBER_APPLICATION_LINK_KEY")
    ∷ []

abbrev pub ember_incoming_message_type_names : NameTable
ember_incoming_message_type_names =
    (0x00, codes "EMBER_INCOMING_UNICAST")
    ∷ (0x01, codes "EMBER_INCOMING_UNICAST_REPLY")
    ∷ (0x02, codes "EMBER_INCOMING_MULTICAST")
    ∷ (0x03, codes "EMBER_INCOMING_MULTICAST_LOOPBACK")
    ∷ (0x04, codes "EMBER_INCOMING_BROADCAST")
    ∷ (0x05, codes "EMBER_INCOMING_BROADCAST_LOOPBACK")
    ∷ (0x06, codes "EMBER_INCOMING_MANY_TO_ONE_ROUTE_REQUEST")
    ∷ []

-- std::map::find.
unfoldable pub find_name : ℕ → NameTable → Option (List ℕ)
find_name v [] = none
find_name v (e ∷ names) = let rest = find_name v names in if e.0 == v then some e.1 else rest

abbrev pub name_or : List ℕ → Option (List ℕ) → List ℕ
name_or missing none = missing
name_or missing (some name) = name

abbrev pub unknown_value : List ℕ
unknown_value = codes "unknown value"

unfoldable pub ember_node_type_to_string : ℕ → List ℕ
unfolding find_name
ember_node_type_to_string v = name_or unknown_value (find_name v ember_node_type_names)

unfoldable pub ember_status_to_string : ℕ → List ℕ
unfolding find_name number_text
ember_status_to_string v = name_or (decimal v ++ codes "(unknown)") (find_name v ember_status_names)

unfoldable pub ember_join_method_to_string : ℕ → List ℕ
unfolding find_name
ember_join_method_to_string v = name_or unknown_value (find_name v ember_join_method_names)

unfoldable pub ezsp_cmd_to_string : ℕ → List ℕ
unfolding find_name
ezsp_cmd_to_string v = name_or unknown_value (find_name v ezsp_cmd_names)

unfoldable pub ember_key_type_to_string : ℕ → List ℕ
unfolding find_name
ember_key_type_to_string v = name_or unknown_value (find_name v ember_key_type_names)

unfoldable pub ember_incoming_message_type_to_string : ℕ → List ℕ
unfolding find_name
ember_incoming_message_type_to_string v =
    name_or unknown_value (find_name v ember_incoming_message_type_names)

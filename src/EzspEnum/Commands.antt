-- ===== src/EzspEnum/Commands.antt =====
-- The tables of names of src/ezsp/ezsp-protocol/ezsp-enum.cpp: the commands, by their sections, with
-- the values of include/ezsp/ezsp-protocol/ezsp-enum.h.
use libezsp.Common.{ℕ, List, [], ◌∷◌, ◌++◌, codes}

-- A std::map from the values of an enumeration to their names.
abbrev pub NameTable : Type 0
NameTable = List (ℕ × List ℕ)

-- Configuration Frames.
abbrev pub configuration_names : NameTable
configuration_names =
    (0x00, codes "EZSP_VERSION")
    ∷ (0x52, codes "EZSP_GET_CONFIGURATION_VALUE")
    ∷ (0x53, codes "EZSP_SET_CONFIGURATION_VALUE")
    ∷ (0x02, codes "EZSP_ADD_ENDPOINT")
    ∷ (0x55, codes "EZSP_SET_POLICY")
    ∷ (0x56, codes "EZSP_GET_POLICY")
    ∷ (0x57, codes "EZSP_SEND_PAN_ID_UPDATE")
    ∷ (0xaa, codes "EZSP_GET_VALUE")
    ∷ (0x03, codes "EZSP_GET_EXTENDED_VALUE")
    ∷ (0xab, codes "EZSP_SET_VALUE")
    ∷ (0xac, codes "EZSP_SET_GPIO_CURRENT_CONFIGURATION")
    ∷ (0xad, codes "EZSP_SET_GPIO_POWER_UP_DOWN_CONFIGURATION")
    ∷ (0xae, codes "EZSP_SET_GPIO_RADIO_POWER_MASK")
    ∷ (0xf5, codes "EZSP_SET_CTUNE")
    ∷ (0xf6, codes "EZSP_GET_CTUNE")
    ∷ []

--  Utilities Frames.
abbrev pub utilities_names : NameTable
utilities_names =
    (0x05, codes "EZSP_NOP")
    ∷ (0x81, codes "EZSP_ECHO")
    ∷ (0x58, codes "EZSP_INVALID_COMMAND")
    ∷ (0x06, codes "EZSP_CALLBACK")
    ∷ (0x07, codes "EZSP_NO_CALLBACKS")
    ∷ (0x09, codes "EZSP_SET_TOKEN")
    ∷ (0x0a, codes "EZSP_GET_TOKEN")
    ∷ (0x0b, codes "EZSP_GET_MFG_TOKEN")
    ∷ (0x0c, codes "EZSP_SET_MFG_TOKEN")
    ∷ (0x0d, codes "EZSP_STACK_TOKEN_CHANGED_HANDLER")
    ∷ (0x49, codes "EZSP_GET_RANDOM_NUMBER")
    ∷ (0x0e, codes "EZSP_SET_TIMER")
    ∷ (0x4e, codes "EZSP_GET_TIMER")
    ∷ (0x0f, codes "EZSP_TIMER_HANDLER")
    ∷ (0x12, codes "EZSP_DEBUG_WRITE")
    ∷ (0x65, codes "EZSP_READ_AND_CLEAR_COUNTERS")
    ∷ (0xf1, codes "EZSP_READ_COUNTERS")
    ∷ (0xf2, codes "EZSP_COUNTER_ROLLOVER_HANDLER")
    ∷ (0x9d, codes "EZSP_DELAY_TEST")
    ∷ (0x01, codes "EZSP_GET_LIBRARY_STATUS")
    ∷ (0x13, codes "EZSP_GET_XNCP_INFO")
    ∷ (0x47, codes "EZSP_CUSTOM_FRAME")
    ∷ (0x54, codes "EZSP_CUSTOM_FRAME_HANDLER")
    ∷ (0x26, codes "EZSP_GET_EUI64")
    ∷ (0x27, codes "EZSP_GET_NODE_ID")
    ∷ (0xfc, codes "EZSP_GET_PHY_INTERFACE_COUNT")
    ∷ (0x4f, codes "EZSP_GET_TRUE_RANDOM_ENTROPY_SOURCE")
    ∷ []

-- Networking Frames.
abbrev pub networking_names : NameTable
networking_names =
    (0x15, codes "EZSP_SET_MANUFACTURER_CODE")
    ∷ (0x16, codes "EZSP_SET_POWER_DESCRIPTOR")
    ∷ (0x17, codes "EZSP_NETWORK_INIT")
    ∷ (0x18, codes "EZSP_NETWORK_STATE")
    ∷ (0x19, codes "EZSP_STACK_STATUS_HANDLER")
    ∷ (0x1a, codes "EZSP_START_SCAN")
    ∷ (0x48, codes "EZSP_ENERGY_SCAN_RESULT_HANDLER")
    ∷ (0x1b, codes "EZSP_NETWORK_FOUND_HANDLER")
    ∷ (0x1c, codes "EZSP_SCAN_COMPLETE_HANDLER")
    ∷ (0xd2, codes "EZSP_UNUSED_PAN_ID_FOUND_HANDLER")
    ∷ (0xd3, codes "EZSP_FIND_UNUSED_PAN_ID")
    ∷ (0x1d, codes "EZSP_STOP_SCAN")
    ∷ (0x1e, codes "EZSP_FORM_NETWORK")
    ∷ (0x1f, codes "EZSP_JOIN_NETWORK")
    ∷ (0x20, codes "EZSP_LEAVE_NETWORK")
    ∷ (0x21, codes "EZSP_FIND_AND_REJOIN_NETWORK")
    ∷ (0x22, codes "EZSP_PERMIT_JOINING")
    ∷ (0x23, codes "EZSP_CHILD_JOIN_HANDLER")
    ∷ (0x9c, codes "EZSP_ENERGY_SCAN_REQUEST")
    ∷ (0x28, codes "EZSP_GET_NETWORK_PARAMETERS")
    ∷ (0xfd, codes "EZSP_GET_RADIO_PARAMETERS")
    ∷ (0x29, codes "EZSP_GET_PARENT_CHILD_PARAMETERS")
    ∷ (0x4a, codes "EZSP_GET_CHILD_DATA")
    ∷ (0xc3, codes "EZSP_GET_SOURCE_ROUTE_TABLE_TOTAL_SIZE")
    ∷ (0xc2, codes "EZSP_GET_SOURCE_ROUTE_TABLE_FILLED_SIZE")
    ∷ (0xc1, codes "EZSP_GET_SOURCE_ROUTE_TABLE_ENTRY")
    ∷ (0x79, codes "EZSP_GET_NEIGHBOR")
    ∷ (0xd0, codes "EZSP_SET_ROUTING_SHORTCUT_THRESHOLD")
    ∷ (0xd1, codes "EZSP_GET_ROUTING_SHORTCUT_THRESHOLD")
    ∷ (0x7a, codes "EZSP_NEIGHBOR_COUNT")
    ∷ (0x7b, codes "EZSP_GET_ROUTE_TABLE_ENTRY")
    ∷ (0x99, codes "EZSP_SET_RADIO_POWER")
    ∷ (0x9a, codes "EZSP_SET_RADIO_CHANNEL")
    ∷ (0x10, codes "EZSP_SET_CONCENTRATOR")
    ∷ (0x11, codes "EZSP_SET_BROKEN_ROUTE_ERROR_CODE")
    ∷ (0xf8, codes "EZSP_MULTI_PHY_START")
    ∷ (0xf9, codes "EZSP_MULTI_PHY_STOP")
    ∷ (0xfa, codes "EZSP_MULTI_PHY_SET_RADIO_POWER")
    ∷ (0xf7, codes "EZSP_SEND_LINK_POWER_DELTA_REQUEST")
    ∷ (0xfb, codes "EZSP_MULTI_PHY_SET_RADIO_CHANNEL")
    ∷ (0x35, codes "EZSP_GET_DUTY_CYCLE_STATE")
    ∷ (0x40, codes "EZSP_SET_DUTY_CYCLE_LIMITS_IN_STACK")
    ∷ (0x4b, codes "EZSP_GET_DUTY_CYCLE_LIMITS")
    ∷ (0x4c, codes "EZSP_GET_CURRENT_DUTY_CYCLE")
    ∷ (0x4d, codes "EZSP_DUTY_CYCLE_HANDLER")
    ∷ []

-- Binding Frames.
abbrev pub binding_names : NameTable
binding_names =
    (0x2a, codes "EZSP_CLEAR_BINDING_TABLE")
    ∷ (0x2b, codes "EZSP_SET_BINDING")
    ∷ (0x2c, codes "EZSP_GET_BINDING")
    ∷ (0x2d, codes "EZSP_DELETE_BINDING")
    ∷ (0x2e, codes "EZSP_BINDING_IS_ACTIVE")
    ∷ (0x2f, codes "EZSP_GET_BINDING_REMOTE_NODE_ID")
    ∷ (0x30, codes "EZSP_SET_BINDING_REMOTE_NODE_ID")
    ∷ (0x31, codes "EZSP_REMOTE_SET_BINDING_HANDLER")
    ∷ (0x32, codes "EZSP_REMOTE_DELETE_BINDING_HANDLER")
    ∷ []

-- Messaging Frames.
abbrev pub messaging_names : NameTable
messaging_names =
    (0x33, codes "EZSP_MAXIMUM_PAYLOAD_LENGTH")
    ∷ (0x34, codes "EZSP_SEND_UNICAST")
    ∷ (0x36, codes "EZSP_SEND_BROADCAST")
    ∷ (0x37, codes "EZSP_PROXY_BROADCAST")
    ∷ (0x38, codes "EZSP_SEND_MULTICAST")
    ∷ (0x3a, codes "EZSP_SEND_MULTICAST_WITH_ALIAS")
    ∷ (0x39, codes "EZSP_SEND_REPLY")
    ∷ (0x3f, codes "EZSP_MESSAGE_SENT_HANDLER")
    ∷ (0x41, codes "EZSP_SEND_MANY_TO_ONE_ROUTE_REQUEST")
    ∷ (0x42, codes "EZSP_POLL_FOR_DATA")
    ∷ (0x43, codes "EZSP_POLL_COMPLETE_HANDLER")
    ∷ (0x44, codes "EZSP_POLL_HANDLER")
    ∷ (0x62, codes "EZSP_INCOMING_SENDER_EUI64_HANDLER")
    ∷ (0x45, codes "EZSP_INCOMING_MESSAGE_HANDLER")
    ∷ (0x59, codes "EZSP_INCOMING_ROUTE_RECORD_HANDLER")
    ∷ (0xc4, codes "EZSP_CHANGE_SOURCE_ROUTE_HANDLER")
    ∷ (0x5a, codes "EZSP_SET_SOURCE_ROUTE")
    ∷ (0x7d, codes "EZSP_INCOMING_MANY_TO_ONE_ROUTE_REQUEST_HANDLER")
    ∷ (0x80, codes "EZSP_INCOMING_ROUTE_ERROR_HANDLER")
    ∷ (0x5b, codes "EZSP_ADDRESS_TABLE_ENTRY_IS_ACTIVE")
    ∷ (0x5c, codes "EZSP_SET_ADDRESS_TABLE_REMOTE_EUI64")
    ∷ (0x5d, codes "EZSP_SET_ADDRESS_TABLE_REMOTE_NODE_ID")
    ∷ (0x5e, codes "EZSP_GET_ADDRESS_TABLE_REMOTE_EUI64")
    ∷ (0x5f, codes "EZSP_GET_ADDRESS_TABLE_REMOTE_NODE_ID")
    ∷ (0x7e, codes "EZSP_SET_EXTENDED_TIMEOUT")
    ∷ (0x7f, codes "EZSP_GET_EXTENDED_TIMEOUT")
    ∷ (0x82, codes "EZSP_REPLACE_ADDRESS_TABLE_ENTRY")
    ∷ (0x60, codes "EZSP_LOOKUP_NODE_ID_BY_EUI64")
    ∷ (0x61, codes "EZSP_LOOKUP_EUI64_BY_NODE_ID")
    ∷ (0x63, codes "EZSP_GET_MULTICAST_TABLE_ENTRY")
    ∷ (0x64, codes "EZSP_SET_MULTICAST_TABLE_ENTRY")
    ∷ (0x7c, codes "EZSP_ID_CONFLICT_HANDLER")
    ∷ (0xfe, codes "EZSP_WRITE_NODE_DATA")
    ∷ (0x96, codes "EZSP_SEND_RAW_MESSAGE")
    ∷ (0x97, codes "EZSP_MAC_PASSTHROUGH_MESSAGE_HANDLER")
    ∷ (0x46, codes "EZSP_MAC_FILTER_MATCH_MESSAGE_HANDLER")
    ∷ (0x98, codes "EZSP_RAW_TRANSMIT_COMPLETE_HANDLER")
    ∷ (0xf4, codes "EZSP_SET_MAC_POLL_CCA_WAIT_TIME")
    ∷ (0xef, codes "EZSP_SET_BEACON_CLASSIFICATION_PARAMS")
    ∷ (0xf3, codes "EZSP_GET_BEACON_CLASSIFICATION_PARAMS")
    ∷ []

-- Security Frames.
abbrev pub security_names : NameTable
security_names =
    (0x68, codes "EZSP_SET_INITIAL_SECURITY_STATE")
    ∷ (0x69, codes "EZSP_GET_CURRENT_SECURITY_STATE")
    ∷ (0x6a, codes "EZSP_GET_KEY")
    ∷ (0x6e, codes "EZSP_SWITCH_NETWORK_KEY_HANDLER")
    ∷ (0x71, codes "EZSP_GET_KEY_TABLE_ENTRY")
    ∷ (0x72, codes "EZSP_SET_KEY_TABLE_ENTRY")
    ∷ (0x75, codes "EZSP_FIND_KEY_TABLE_ENTRY")
    ∷ (0x66, codes "EZSP_ADD_OR_UPDATE_KEY_TABLE_ENTRY")
    ∷ (0x67, codes "EZSP_SEND_TRUST_CENTER_LINK_KEY")
    ∷ (0x76, codes "EZSP_ERASE_KEY_TABLE_ENTRY")
    ∷ (0xb1, codes "EZSP_CLEAR_KEY_TABLE")
    ∷ (0x14, codes "EZSP_REQUEST_LINK_KEY")
    ∷ (0x6c, codes "EZSP_UPDATE_TC_LINK_KEY")
    ∷ (0x9b, codes "EZSP_ZIGBEE_KEY_ESTABLISHMENT_HANDLER")
    ∷ (0xaf, codes "EZSP_ADD_TRANSIENT_LINK_KEY")
    ∷ (0x6b, codes "EZSP_CLEAR_TRANSIENT_LINK_KEYS")
    ∷ (0xce, codes "EZSP_GET_TRANSIENT_LINK_KEY")
    ∷ (0x6d, codes "EZSP_GET_TRANSIENT_KEY_TABLE_ENTRY")
    ∷ []

-- Trust Center Frames.
abbrev pub trust_center_names : NameTable
trust_center_names =
    (0x24, codes "EZSP_TRUST_CENTER_JOIN_HANDLER")
    ∷ (0x73, codes "EZSP_BROADCAST_NEXT_NETWORK_KEY")
    ∷ (0x74, codes "EZSP_BROADCAST_NETWORK_KEY_SWITCH")
    ∷ (0x77, codes "EZSP_BECOME_TRUST_CENTER")
    ∷ (0x6f, codes "EZSP_AES_MMO_HASH")
    ∷ (0xa8, codes "EZSP_REMOVE_DEVICE")
    ∷ (0xa9, codes "EZSP_UNICAST_NWK_KEY_UPDATE")
    ∷ []

-- Certificate Based Key Exchange (CBKE).
abbrev pub certificate_based_key_exchange_cbke_names : NameTable
certificate_based_key_exchange_cbke_names =
    (0xa4, codes "EZSP_GENERATE_CBKE_KEYS")
    ∷ (0x9e, codes "EZSP_GENERATE_CBKE_KEYS_HANDLER")
    ∷ (0x9f, codes "EZSP_CALCULATE_SMACS")
    ∷ (0xa0, codes "EZSP_CALCULATE_SMACS_HANDLER")
    ∷ (0xe8, codes "EZSP_GENERATE_CBKE_KEYS283K1")
    ∷ (0xe9, codes "EZSP_GENERATE_CBKE_KEYS_HANDLER283K1")
    ∷ (0xea, codes "EZSP_CALCULATE_SMACS283K1")
    ∷ (0xeb, codes "EZSP_CALCULATE_SMACS_HANDLER283K1")
    ∷ (0xa1, codes "EZSP_CLEAR_TEMPORARY_DATA_MAYBE_STORE_LINK_KEY")
    ∷ (0xee, codes "EZSP_CLEAR_TEMPORARY_DATA_MAYBE_STORE_LINK_KEY283K1")
    ∷ (0xa5, codes "EZSP_GET_CERTIFICATE")
    ∷ (0xec, codes "EZSP_GET_CERTIFICATE283K1")
    ∷ (0xa6, codes "EZSP_DSA_SIGN")
    ∷ (0xa7, codes "EZSP_DSA_SIGN_HANDLER")
    ∷ (0xa3, codes "EZSP_DSA_VERIFY")
    ∷ (0x78, codes "EZSP_DSA_VERIFY_HANDLER")
    ∷ (0xb0, codes "EZSP_DSA_VERIFY283K1")
    ∷ (0xa2, codes "EZSP_SET_PREINSTALLED_CBKE_DATA")
    ∷ (0xed, codes "EZSP_SAVE_PREINSTALLED_CBKE_DATA283K1")
    ∷ []

-- Mfglib.
abbrev pub mfglib_names : NameTable
mfglib_names = (0x8e, codes "EZSP_MFGLIB_RX_HANDLER") ∷ []

-- Bootloader.
abbrev pub bootloader_names : NameTable
bootloader_names =
    (0x8f, codes "EZSP_LAUNCH_STANDALONE_BOOTLOADER")
    ∷ (0x90, codes "EZSP_SEND_BOOTLOAD_MESSAGE")
    ∷ (0x91, codes "EZSP_GET_STANDALONE_BOOTLOADER_VERSION_PLAT_MICRO_PHY")
    ∷ (0x92, codes "EZSP_INCOMING_BOOTLOAD_MESSAGE_HANDLER")
    ∷ (0x93, codes "EZSP_BOOTLOAD_TRANSMIT_COMPLETE_HANDLER")
    ∷ (0x94, codes "EZSP_AES_ENCRYPT")
    ∷ (0x95, codes "EZSP_OVERRIDE_CURRENT_CHANNEL")
    ∷ []

-- Green Power.
abbrev pub green_power_names : NameTable
green_power_names =
    (0xc9, codes "EZSP_GP_PROXY_TABLE_PROCESS_GP_PAIRING")
    ∷ (0xc6, codes "EZSP_D_GP_SEND")
    ∷ (0xc7, codes "EZSP_D_GP_SENT_HANDLER")
    ∷ (0xc5, codes "EZSP_GPEP_INCOMING_MESSAGE_HANDLER")
    ∷ (0xc8, codes "EZSP_GP_PROXY_TABLE_GET_ENTRY")
    ∷ (0xc0, codes "EZSP_GP_PROXY_TABLE_LOOKUP")
    ∷ (0xdd, codes "EZSP_GP_SINK_TABLE_GET_ENTRY")
    ∷ (0xde, codes "EZSP_GP_SINK_TABLE_LOOKUP")
    ∷ (0xdf, codes "EZSP_GP_SINK_TABLE_SET_ENTRY")
    ∷ (0xe0, codes "EZSP_GP_SINK_TABLE_REMOVE_ENTRY")
    ∷ (0xe1, codes "EZSP_GP_SINK_TABLE_FIND_OR_ALLOCATE_ENTRY")
    ∷ (0xe2, codes "EZSP_GP_SINK_TABLE_CLEAR_ALL")
    ∷ (0x70, codes "EZSP_GP_SINK_TABLE_INIT")
    ∷ []

abbrev pub ezsp_cmd_names : NameTable
ezsp_cmd_names =
    configuration_names ++ utilities_names ++ networking_names ++ binding_names ++ messaging_names
    ++ security_names ++ trust_center_names ++ certificate_based_key_exchange_cbke_names
    ++ mfglib_names ++ bootloader_names ++ green_power_names

-- ===== src/EzspEnum.antt =====
-- include/ezsp/ezsp-protocol/ezsp-enum.h: the numbers of the EZSP commands, statuses and settings
-- that the library sends and receives.
pub mod Commands
pub mod Names
pub mod Distinct
use libezsp.Common.{ℕ}

abbrev pub ezsp_set_configuration_value : ℕ
ezsp_set_configuration_value = 0x53

abbrev pub ezsp_add_endpoint : ℕ
ezsp_add_endpoint = 0x02

abbrev pub ezsp_set_policy : ℕ
ezsp_set_policy = 0x55

abbrev pub ezsp_get_xncp_info : ℕ
ezsp_get_xncp_info = 0x13

abbrev pub ezsp_network_init : ℕ
ezsp_network_init = 0x17

abbrev pub ezsp_network_state : ℕ
ezsp_network_state = 0x18

abbrev pub ezsp_stack_status_handler : ℕ
ezsp_stack_status_handler = 0x19

abbrev pub ezsp_start_scan : ℕ
ezsp_start_scan = 0x1a

abbrev pub ezsp_energy_scan_result_handler : ℕ
ezsp_energy_scan_result_handler = 0x48

abbrev pub ezsp_network_found_handler : ℕ
ezsp_network_found_handler = 0x1b

abbrev pub ezsp_scan_complete_handler : ℕ
ezsp_scan_complete_handler = 0x1c

abbrev pub ezsp_form_network : ℕ
ezsp_form_network = 0x1e

abbrev pub ezsp_join_network : ℕ
ezsp_join_network = 0x1f

abbrev pub ezsp_leave_network : ℕ
ezsp_leave_network = 0x20

abbrev pub ezsp_permit_joining : ℕ
ezsp_permit_joining = 0x22

abbrev pub ezsp_get_network_parameters : ℕ
ezsp_get_network_parameters = 0x28

abbrev pub ezsp_get_child_data : ℕ
ezsp_get_child_data = 0x4a

abbrev pub ezsp_set_radio_channel : ℕ
ezsp_set_radio_channel = 0x9a

abbrev pub ezsp_send_unicast : ℕ
ezsp_send_unicast = 0x34

abbrev pub ezsp_send_broadcast : ℕ
ezsp_send_broadcast = 0x36

abbrev pub ezsp_set_initial_security_state : ℕ
ezsp_set_initial_security_state = 0x68

abbrev pub ezsp_get_key : ℕ
ezsp_get_key = 0x6a

abbrev pub ezsp_gp_proxy_table_process_gp_pairing : ℕ
ezsp_gp_proxy_table_process_gp_pairing = 0xc9

abbrev pub ezsp_d_gp_send : ℕ
ezsp_d_gp_send = 0xc6

abbrev pub ezsp_d_gp_sent_handler : ℕ
ezsp_d_gp_sent_handler = 0xc7

abbrev pub ezsp_gpep_incoming_message_handler : ℕ
ezsp_gpep_incoming_message_handler = 0xc5

abbrev pub ezsp_gp_proxy_table_get_entry : ℕ
ezsp_gp_proxy_table_get_entry = 0xc8

abbrev pub ezsp_gp_proxy_table_lookup : ℕ
ezsp_gp_proxy_table_lookup = 0xc0

abbrev pub ezsp_gp_sink_table_get_entry : ℕ
ezsp_gp_sink_table_get_entry = 0xdd

abbrev pub ezsp_gp_sink_table_lookup : ℕ
ezsp_gp_sink_table_lookup = 0xde

abbrev pub ezsp_gp_sink_table_set_entry : ℕ
ezsp_gp_sink_table_set_entry = 0xdf

abbrev pub ezsp_gp_sink_table_remove_entry : ℕ
ezsp_gp_sink_table_remove_entry = 0xe0

abbrev pub ezsp_gp_sink_table_find_or_allocate_entry : ℕ
ezsp_gp_sink_table_find_or_allocate_entry = 0xe1

abbrev pub ezsp_gp_sink_table_clear_all : ℕ
ezsp_gp_sink_table_clear_all = 0xe2

abbrev pub ezsp_gp_sink_table_init : ℕ
ezsp_gp_sink_table_init = 0x70

abbrev pub ezsp_send_raw_message : ℕ
ezsp_send_raw_message = 0x96

abbrev pub ezsp_raw_transmit_complete_handler : ℕ
ezsp_raw_transmit_complete_handler = 0x98

abbrev pub ezsp_message_sent_handler : ℕ
ezsp_message_sent_handler = 0x3f

abbrev pub ember_success : ℕ
ember_success = 0x00

-- UNDOCUMENTED_WRONG_MIC_FOR_SOURCE_ID.
abbrev pub wrong_mic_for_source_id : ℕ
wrong_mic_for_source_id = 0x7e

abbrev pub ember_network_up : ℕ
ember_network_up = 0x90

abbrev pub ember_no_network : ℕ
ember_no_network = 0x00

abbrev pub ember_router : ℕ
ember_router = 0x02

abbrev pub ember_current_network_key : ℕ
ember_current_network_key = 0x03

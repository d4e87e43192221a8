-- ===== src/Dongle.antt =====
-- src/ezsp/ezsp-dongle.cpp: CEzspDongle, which queues the EZSP commands for the adapter, sends one
-- at a time, matches the responses and switches between the EZSP and the bootloader mode. What the
-- observers are told is listed in the order of the calls.
pub mod Receive
pub mod Header
pub mod Well
pub mod Calls
pub mod Survives
pub mod Reset
pub mod Console
pub mod Upgrade
pub mod Fifo
pub mod Link
use libezsp.Common.{ℕ, zero, suc, ◌+◌, ◌==◌, ◌!=◌, ltb, leb, if◌then◌else◌, not, ◌&&◌, ◌||◌, u8}
use libezsp.Common.{Bool, true, false, List, [], ◌∷◌, ◌++◌, Option, none, some}
use libezsp.Ash.Codec.{AshInfo, ash_reset_failed, ash_ack, ash_nack}
use libezsp.Ash.Codec.{ash_state_disconnected, ash_state_connected}
use libezsp.Driver.{AshDriver, WriteFunc, send_data_frame, send_reset_ncp_frame, new_ash_driver}
use libezsp.Driver as Driver
use libezsp.BootloaderPrompt.{BootloaderPromptDriver, PromptCallback, exit_to_ezsp_ncp}
use libezsp.BootloaderPrompt.{firmware_upgrade, new_bootloader_prompt_driver, select_mode_run}
use libezsp.BootloaderPrompt.{select_mode_upgrade_fw, register_prompt_detect_callback}
use libezsp.BootloaderPrompt as Prompt
use libezsp.AdapterVersion.{EzspAdapterVersion, new_adapter_version, set_xncp_data}
use libezsp.AdapterVersion.{set_stack_version, set_ezsp_version_info}
use mathlib.Core.Option

pub data Mode : Type 0 where
  unknown ezsp_ncp bootloader_firmware_upgrade bootloader_exit_to_ezsp_ncp : Mode

pub data DongleState : Type 0 where
  dongle_ready dongle_remove dongle_not_responding dongle_version_retrieved : DongleState

-- The calls of the observers.
pub data Notice : Type 0 where
  handle_dongle_state : DongleState → Notice
  handle_ezsp_rx_message : ℕ → List ℕ → Notice
  handle_bootloader_prompt handle_firmware_xmodem_xfr : Notice

-- SMsg; a command is the number of its EEzspCmd.
pub record Msg : Type 0 where
  pub cmd : ℕ
  pub payload : List ℕ

abbrev pub ezsp_version : ℕ
ezsp_version = 0x00

abbrev pub ezsp_launch_standalone_bootloader : ℕ
ezsp_launch_standalone_bootloader = 0x8f

-- `has_uart` tells whether `uartHandle` is set, and `told` is what the observers were told.
pub record EzspDongle : Type 0 where
  pub first_startup : Bool
  pub version : EzspAdapterVersion
  pub last_known_mode : Mode
  pub switch_to_firmware_upgrade_on_init_timeout : Bool
  pub has_uart : Bool
  pub ezsp_seq_num : ℕ
  pub ash : AshDriver
  pub blp : BootloaderPromptDriver
  pub sending_msg_queue : List Msg
  pub wait_rsp : Bool
  pub told : List Notice

unfoldable pub new_ezsp_dongle : EzspDongle
new_ezsp_dongle = record {
  first_startup = true;
  version = new_adapter_version;
  last_known_mode = unknown;
  switch_to_firmware_upgrade_on_init_timeout = false;
  has_uart = false;
  ezsp_seq_num = 0;
  ash = Driver.disable (new_ash_driver true);
  blp = Prompt.disable new_bootloader_prompt_driver;
  sending_msg_queue = [];
  wait_rsp = false;
  told = [];
}

-- setUart; the handle's write function is given.
unfoldable pub set_uart : WriteFunc → EzspDongle → EzspDongle
set_uart write d = record d {
  has_uart = true;
  ash = Driver.register_serial_writer write d.ash;
  blp = Prompt.register_serial_writer write d.blp;
}

abbrev pub notify_observers_of_dongle_state : Notice → EzspDongle → EzspDongle
notify_observers_of_dongle_state n d = record d { told = d.told ++ (n ∷ []) }

-- `lastKnownMode` is EZSP_NCP or UNKNOWN.
abbrev pub may_use_ezsp : Mode → Bool
may_use_ezsp unknown = true
may_use_ezsp ezsp_ncp = true
may_use_ezsp bootloader_firmware_upgrade = false
may_use_ezsp bootloader_exit_to_ezsp_ncp = false

unfoldable pub known_ezsp_protocol_version : EzspAdapterVersion → Bool
known_ezsp_protocol_version v = v.ezsp_protocol_version != 0

unfoldable pub known_ezsp_protocol_version_ge : EzspAdapterVersion → ℕ → Bool
unfolding known_ezsp_protocol_version
known_ezsp_protocol_version_ge v min_included_version =
    if not (known_ezsp_protocol_version v)
    then false
    else leb min_included_version v.ezsp_protocol_version

unfoldable pub known_ezsp_protocol_version_lt : EzspAdapterVersion → ℕ → Bool
unfolding known_ezsp_protocol_version
known_ezsp_protocol_version_lt v max_excluded_version =
    if not (known_ezsp_protocol_version v)
    then false
    else ltb v.ezsp_protocol_version max_excluded_version

-- The message that sendNextMsg builds: sequence number, frame control, extended header, command.
unfoldable pub ezsp_message : EzspAdapterVersion → ℕ → Msg → List ℕ
unfolding known_ezsp_protocol_version_ge known_ezsp_protocol_version_lt
ezsp_message version seq_num msg =
    (seq_num ∷ 0x00 ∷ [])
    ++ (if known_ezsp_protocol_version_ge version 8 then 0x01 ∷ [] else [])
    ++ (if (msg.cmd != ezsp_version) && known_ezsp_protocol_version_lt version 8
        then 0xff ∷ 0x00 ∷ []
        else [])
    ++ (u8 msg.cmd ∷ [])
    ++ (if known_ezsp_protocol_version_ge version 8 then 0x00 ∷ [] else [])
    ++ msg.payload

-- The sequence number is taken, and only a message that was written in full is waited for.
unfoldable pub send_front : Msg → EzspDongle → Option EzspDongle
send_front msg d =
    Option.map
      (λ answer. record d {
        ezsp_seq_num = u8 (d.ezsp_seq_num + 1);
        ash = answer.0;
        wait_rsp = if answer.1 then true else d.wait_rsp;
      })
      (send_data_frame d.ash (ezsp_message d.version d.ezsp_seq_num msg))

-- `none` where the frame is never forged.
unfoldable pub send_next_msg : EzspDongle → Option EzspDongle
send_next_msg d =
    if not (may_use_ezsp d.last_known_mode)
    then some d
    else if d.wait_rsp
    then some d
    else elim d.sending_msg_queue [ [] ↦ some d | msg ∷ rest ↦ send_front msg d ]

unfoldable pub send_command : ℕ → List ℕ → EzspDongle → Option EzspDongle
send_command cmd payload d = send_next_msg (record d {
  sending_msg_queue = d.sending_msg_queue ++ (record { cmd = cmd; payload = payload } ∷ []);
})

unfoldable pub handle_response : ℕ → EzspDongle → Option EzspDongle
handle_response cmd d = elim d.sending_msg_queue [
  | [] ↦ some d
  | msg ∷ rest ↦
      if msg.cmd == cmd
      then send_next_msg (record d { sending_msg_queue = rest; wait_rsp = false })
      else some d
]

unfoldable pub set_fetched_xncp_data : ℕ → ℕ → EzspDongle → EzspDongle
set_fetched_xncp_data manufacturer_id version_number d =
    notify_observers_of_dongle_state (handle_dongle_state dongle_version_retrieved)
      (record d { version = set_xncp_data manufacturer_id version_number d.version })

-- setFetchedEzspVersionData of one argument.
unfoldable pub set_fetched_stack_version : ℕ → EzspDongle → EzspDongle
set_fetched_stack_version stack_version d =
    notify_observers_of_dongle_state (handle_dongle_state dongle_version_retrieved)
      (record d { version = set_stack_version stack_version d.version })

-- setFetchedEzspVersionData of three arguments.
unfoldable pub set_fetched_ezsp_version_data : ℕ → ℕ → ℕ → EzspDongle → EzspDongle
set_fetched_ezsp_version_data stack_version protocol_version stack_type d =
    notify_observers_of_dongle_state (handle_dongle_state dongle_version_retrieved) (record d {
      version = set_ezsp_version_info stack_version protocol_version stack_type d.version;
    })

unfoldable pub force_firmware_upgrade_on_init_timeout : EzspDongle → EzspDongle
force_firmware_upgrade_on_init_timeout d = record d {
  switch_to_firmware_upgrade_on_init_timeout = true;
}

-- The branch of setMode that leaves the bootloader.
abbrev leave_bootloader : Mode → EzspDongle → EzspDongle
leave_bootloader requested d = record d {
  last_known_mode = requested;
  blp = Prompt.reset (Prompt.enable (register_prompt_detect_callback exit_to_ezsp_ncp d.blp));
}

-- The branch of setMode that enters the bootloader.
abbrev enter_bootloader : EzspDongle → EzspDongle
enter_bootloader d = record d {
  last_known_mode = bootloader_firmware_upgrade;
  ash = Driver.disable d.ash;
  blp = Prompt.reset (register_prompt_detect_callback firmware_upgrade (Prompt.enable d.blp));
}

-- Without effect for the combinations of modes that are not listed.
unfoldable pub set_mode : Mode → EzspDongle → EzspDongle
set_mode requested d = elim requested [
  | unknown ↦ d
  | ezsp_ncp ↦ elim d.last_known_mode [ ezsp_ncp ↦ d | _ ↦ leave_bootloader ezsp_ncp d ]
  | bootloader_exit_to_ezsp_ncp ↦ elim d.last_known_mode [
    | ezsp_ncp ↦ d
    | _ ↦ leave_bootloader bootloader_exit_to_ezsp_ncp d
  ]
  | bootloader_firmware_upgrade ↦ if may_use_ezsp d.last_known_mode then enter_bootloader d else d
]

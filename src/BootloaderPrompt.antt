-- ===== src/BootloaderPrompt.antt =====
-- src/ezsp/bootloader-prompt-driver.cpp: BootloaderPromptDriver, which finds the prompt of the Gecko
-- bootloader on the serial port and types commands into it. Here are its state and the operations
-- that the adapter's driver calls.
pub mod Broken
pub mod Stops
pub mod Console
pub mod Prompt
use libezsp.Common.{ℕ, ◌!=◌, if◌then◌else◌, not, Bool, true, false}
use libezsp.Common.{List, [], ◌∷◌, ◌++◌, length, Option, none, some}
use libezsp.Driver.{WriteFunc}

pub data Stage : Type 0 where
  rx_flush probe_stage toplevel_menu_header toplevel_menu_content : Stage
  toplevel_menu_prompt xmodem_ready_char_wait xmodem_xfr : Stage

abbrev pub is_toplevel_menu_prompt : Stage → Bool
is_toplevel_menu_prompt toplevel_menu_prompt = true
is_toplevel_menu_prompt _ = false

-- In milliseconds.
abbrev pub gecko_quiet_rx_timeout : ℕ
gecko_quiet_rx_timeout = 100

-- The functions that CEzspDongle registers as `promptDetectCallback`, by what they go on to do.
pub data PromptCallback : Type 0 where
  exit_to_ezsp_ncp firmware_upgrade : PromptCallback

-- `timer` is the time the timer was started with, while it runs; `sent` is what went to the write
-- function, oldest first; the last field tells whether `firmwareTransferStartFunc` is set.
pub record BootloaderPromptDriver : Type 0 where
  pub enabled : Bool
  pub timer : Option ℕ
  pub accumulated_bytes : List ℕ
  pub bootloader_cli_checked : Bool
  pub state : Stage
  pub serial_write_func : Option WriteFunc
  pub sent : List (List ℕ)
  pub prompt_detect_callback : Option PromptCallback
  pub has_firmware_transfer_start_func : Bool

unfoldable pub new_bootloader_prompt_driver : BootloaderPromptDriver
new_bootloader_prompt_driver = record {
  enabled = true;
  timer = none;
  accumulated_bytes = [];
  bootloader_cli_checked = false;
  state = rx_flush;
  serial_write_func = none;
  sent = [];
  prompt_detect_callback = none;
  has_firmware_transfer_start_func = false;
}

unfoldable pub disable : BootloaderPromptDriver → BootloaderPromptDriver
disable b = record b { enabled = false }

unfoldable pub enable : BootloaderPromptDriver → BootloaderPromptDriver
enable b = record b { enabled = true }

unfoldable pub register_serial_writer : WriteFunc → BootloaderPromptDriver → BootloaderPromptDriver
register_serial_writer new_write_func b = record b { serial_write_func = some new_write_func }

unfoldable pub register_prompt_detect_callback :
    PromptCallback → BootloaderPromptDriver → BootloaderPromptDriver
register_prompt_detect_callback callback b = record b { prompt_detect_callback = some callback }

unfoldable pub reset : BootloaderPromptDriver → BootloaderPromptDriver
reset b = record b {
  state = rx_flush;
  accumulated_bytes = [];
  bootloader_cli_checked = false;
  has_firmware_transfer_start_func = false;
  timer = some gecko_quiet_rx_timeout;
}

unfoldable pub write_bytes :
    WriteFunc → List ℕ → Stage → BootloaderPromptDriver → BootloaderPromptDriver × Bool
write_bytes f data_out new_state b =
    let answer = f b.sent data_out in
    (
      record b { state = new_state; sent = b.sent ++ (data_out ∷ []) },
      not (answer.written_cnt != length data_out),
    )

unfoldable pub send_bytes : List ℕ → Stage → BootloaderPromptDriver → BootloaderPromptDriver × Bool
unfolding write_bytes
send_bytes data_out new_state b = elim b.serial_write_func [
  | none ↦ (b, false)
  | some f ↦ if not b.enabled then (b, false) else write_bytes f data_out new_state b
]

-- probe, which is what the timer's expiry does.
unfoldable pub probe : BootloaderPromptDriver → BootloaderPromptDriver
unfolding send_bytes
probe b = (send_bytes (b'\n' ∷ []) probe_stage b).0

unfoldable pub select_mode_run : BootloaderPromptDriver → BootloaderPromptDriver × Bool
unfolding send_bytes
select_mode_run b =
    if not (is_toplevel_menu_prompt b.state) then (b, false) else send_bytes (b'2' ∷ []) rx_flush b

-- The callback is kept only if the command was written.
abbrev keep_start_func : BootloaderPromptDriver × Bool → BootloaderPromptDriver × Bool
keep_start_func (b, true) = (record b { has_firmware_transfer_start_func = true }, true)
keep_start_func (b, false) = (b, false)

unfoldable pub select_mode_upgrade_fw : BootloaderPromptDriver → BootloaderPromptDriver × Bool
unfolding send_bytes
select_mode_upgrade_fw b =
    if not (is_toplevel_menu_prompt b.state)
    then (b, false)
    else keep_start_func (send_bytes (b'1' ∷ []) xmodem_ready_char_wait b)

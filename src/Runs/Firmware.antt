-- ===== src/Runs/Firmware.antt =====
-- The firmware's tools on short runs: the bootloader's console, the way to a transfer
-- (src/ezsp/bootloader-prompt-driver.cpp, src/ezsp/ezsp-dongle.cpp) and get_gbl_version.c.
use libezsp.Common.{ℕ, ◌≡◌, refl, arith, true, false, List, [], ◌∷◌, ◌++◌, some}
use libezsp.Common.{codes, drop, length, starts_with}
use libezsp.BootloaderPrompt.{BootloaderPromptDriver, new_bootloader_prompt_driver, probe_stage}
use libezsp.BootloaderPrompt.{toplevel_menu_prompt, xmodem_xfr}
use libezsp.BootloaderPrompt.Console.{parsed, append_incoming_console, gecko_bootloader_prompt}
use libezsp.BootloaderPrompt.Prompt.{banner, menu_and_prompt, append_incoming-banner}
use libezsp.Dongle.{EzspDongle, set_mode, bootloader_firmware_upgrade}
use libezsp.Dongle.{handle_bootloader_prompt, handle_firmware_xmodem_xfr}
use libezsp.Dongle.Console.{served, receive_consoles, console_timeout, IsServed}
use libezsp.Dongle.Console.{receive_consoles-IsServed, BreaksAt}
use libezsp.BootloaderPrompt.Console.{handle_console_data, broken_version, gecko_bootloader_header}
use libezsp.Dongle.Calls.{same_core-IsWell}
use libezsp.BootloaderPrompt.Broken.{HasEmptyVersion}
use libezsp.BootloaderPrompt.Stops.{empty_version_breaks}
use libezsp.Common.{◌↔◌}
use libezsp.Dongle.Upgrade.{upgrade_reaches_transfer}
use libezsp.Driver.{WriteFunc}
use libezsp.Gbl.{Ending, version, get_gbl_version}
use libezsp.Gbl.Version.{firmware_image, get_gbl_version-image, get_gbl_version_ends}
use libezsp.Runs.Adapter.{dongle, dongle-IsWell}

-- What the bootloader prints around its header.
abbrev version_text : List ℕ
version_text = codes "v1.5"

abbrev menu_text : List ℕ
menu_text = codes "2. run"

abbrev prompt_text : List ℕ
prompt_text = banner [] b' ' version_text menu_text []

abbrev probing : BootloaderPromptDriver
probing = record new_bootloader_prompt_driver { state = probe_stage }

append_incoming-banner_example :
    (k : ℕ) × (append_incoming_console prompt_text probing
      ≡ parsed
          (record probing {
            state = toplevel_menu_prompt;
            accumulated_bytes = drop k (menu_and_prompt b' ' version_text menu_text []);
          })
          false
          false
          false)
    × (starts_with gecko_bootloader_prompt (drop k (menu_and_prompt b' ' version_text menu_text []))
        ≡ true)
unfolding new_bootloader_prompt_driver
append_incoming-banner_example =
    append_incoming-banner probing b'G' (drop 1 prompt_text) [] version_text menu_text [] b' ' refl
      (ground arith) tt (ground arith) refl

-- A console that looks for the header.
abbrev listening : BootloaderPromptDriver
listening = record new_bootloader_prompt_driver { enabled = true; state = probe_stage }

abbrev listening_dongle : EzspDongle
listening_dongle = record dongle { blp = listening }

-- A line feed right behind the header, in the second call.
abbrev broken_text : List (List ℕ)
broken_text = (b'\n' ∷ []) ∷ (gecko_bootloader_header ++ (b'\n' ∷ [])) ∷ []

receive_consoles-IsServed_example :
    IsServed (BreaksAt broken_text listening_dongle) (receive_consoles broken_text listening_dongle)
receive_consoles-IsServed_example =
    receive_consoles-IsServed broken_text listening_dongle
      (same_core-IsWell dongle listening_dongle refl refl refl refl dongle-IsWell)

empty_version_breaks_example :
    (handle_console_data (b'G' ∷ drop 1 gecko_bootloader_header ++ (b'\n' ∷ [])) listening
      ≡ broken_version)
    ↔ HasEmptyVersion (b'G' ∷ drop 1 gecko_bootloader_header ++ (b'\n' ∷ [])) listening
empty_version_breaks_example =
    empty_version_breaks b'G' (drop 1 gecko_bootloader_header ++ (b'\n' ∷ [])) listening refl
      (ground arith)

abbrev whole_port : WriteFunc
whole_port before frame = record { failed = false; written_cnt = length frame }

abbrev open_dongle : EzspDongle
open_dongle = record dongle {
  blp = record new_bootloader_prompt_driver { serial_write_func = some whole_port };
}

upgrade_reaches_transfer_example :
    let asked = console_timeout (set_mode bootloader_firmware_upgrade open_dongle) in
    (d' : EzspDongle) × (receive_consoles (prompt_text ∷ (b'C' ∷ []) ∷ []) asked ≡ served d')
    × (d'.blp.state ≡ xmodem_xfr)
    × (d'.blp.sent ≡ open_dongle.blp.sent ++ ((b'\n' ∷ []) ∷ []) ++ ((b'1' ∷ []) ∷ []))
    × (d'.told
        ≡ open_dongle.told ++ (handle_bootloader_prompt ∷ []) ++ (handle_firmware_xmodem_xfr ∷ []))
    × (d'.last_known_mode ≡ bootloader_firmware_upgrade)
upgrade_reaches_transfer_example =
    upgrade_reaches_transfer open_dongle whole_port b'G' b'C' b' ' (drop 1 prompt_text) []
      version_text menu_text [] [] refl refl refl (ground arith) tt (ground arith) refl
      (ground arith) refl (ground arith) (ground arith)

get_gbl_version-image_example :
    get_gbl_version
      (firmware_image ((0x03a617eb, 1 ∷ 2 ∷ []) ∷ []) 1 0x0672 (codes "0123456789abcdefghij") [])
    ≡ some (version 0x0672)
get_gbl_version-image_example =
    get_gbl_version-image ((0x03a617eb, 1 ∷ 2 ∷ []) ∷ []) 1 0x0672 (codes "0123456789abcdefghij") []
      (((omega arith, omega arith), omega arith), tt) (omega arith) (omega arith) (omega arith)

-- An image that ends within its second tag.
get_gbl_version_ends_example :
    (e : Ending) × (get_gbl_version (0 ∷ 0 ∷ 0 ∷ 0 ∷ 1 ∷ 0 ∷ 0 ∷ 0 ∷ 5 ∷ 9 ∷ []) ≡ some e)
get_gbl_version_ends_example = get_gbl_version_ends (0 ∷ 0 ∷ 0 ∷ 0 ∷ 1 ∷ 0 ∷ 0 ∷ 0 ∷ 5 ∷ 9 ∷ [])

-- ===== src/Dongle/Upgrade.antt =====
-- The way of CEzspDongle (src/ezsp/ezsp-dongle.cpp) from the EZSP mode to the transfer of a firmware,
-- over the bootloader's console (src/ezsp/bootloader-prompt-driver.cpp).
use libezsp.Common.{ℕ, ◌≡◌, ◌≢◌, ◌∙◌, refl, ap, arith, Bool, true, false}
use libezsp.Common.{List, [], ◌∷◌, ◌++◌, none, some, All, All-append, All-drop, drop}
use libezsp.Driver.{WriteFunc}
use libezsp.Driver as Driver
use libezsp.BootloaderPrompt as Prompt
use libezsp.BootloaderPrompt.{BootloaderPromptDriver, Stage, firmware_upgrade, probe_stage}
use libezsp.BootloaderPrompt.{xmodem_ready_char_wait, xmodem_xfr, select_mode_upgrade_fw, probe}
use libezsp.BootloaderPrompt.{send_bytes, write_bytes, toplevel_menu_prompt}
use libezsp.BootloaderPrompt.Console.{parsed, handle_console_data, ends_with_c}
use libezsp.BootloaderPrompt.Prompt.{banner, menu_and_prompt, append_incoming-banner}
use libezsp.BootloaderPrompt.Prompt.{append_incoming-ready}
use libezsp.Dongle.{EzspDongle, Notice, set_mode, ezsp_ncp, bootloader_firmware_upgrade}
use libezsp.Dongle.{handle_bootloader_prompt, handle_firmware_xmodem_xfr}
use libezsp.Dongle.Receive.{prompt_detected}
use libezsp.Dongle.Console.{served, serve, receive_console, receive_consoles}
use libezsp.Dongle.Console.{console_timeout, call_prompt, then_console}

-- On the way to the transfer: the stage, the bytes that are accumulated, what has been written, and
-- what the observers have been told.
module _ (d : EzspDongle) (f : WriteFunc) where
  abbrev console : Stage → List ℕ → List (List ℕ) → Bool → BootloaderPromptDriver
  console stage bytes sent waits = record {
    enabled = true;
    timer = none;
    accumulated_bytes = bytes;
    bootloader_cli_checked = false;
    state = stage;
    serial_write_func = some f;
    sent = sent;
    prompt_detect_callback = some firmware_upgrade;
    has_firmware_transfer_start_func = waits;
  }

  abbrev upgrading : BootloaderPromptDriver → List Notice → EzspDongle
  upgrading b told = record d {
    last_known_mode = bootloader_firmware_upgrade;
    ash = Driver.disable d.ash;
    blp = b;
    told = told;
  }

  probe_sent :
      d.last_known_mode ≡ ezsp_ncp
      → d.blp.serial_write_func ≡ some f
      → console_timeout (set_mode bootloader_firmware_upgrade d)
        ≡ upgrading (console probe_stage [] (d.blp.sent ++ ((b'\n' ∷ []) ∷ [])) false) d.told
  unfolding console_timeout set_mode probe send_bytes write_bytes Prompt.enable Prompt.reset
      Prompt.register_prompt_detect_callback
  probe_sent mode port =
      ap
        (λ w. console_timeout (
          set_mode bootloader_firmware_upgrade
            (record d { blp = record (d.blp) { serial_write_func = w } })))
        port
      ∙ ap
          (λ m. console_timeout (
            set_mode bootloader_firmware_upgrade (record d {
              last_known_mode = m;
              blp = record (d.blp) { serial_write_func = some f };
            })))
          mode

  command_sent :
      (bytes : List ℕ) (sent : List (List ℕ)) (told : List Notice)
      → (f sent (b'1' ∷ [])).written_cnt ≡ 1
      → serve
          (upgrading (console probe_stage [] sent false) told)
          (parsed (console toplevel_menu_prompt bytes sent false) false true false)
        ≡ served (
            upgrading
              (console xmodem_ready_char_wait bytes (sent ++ ((b'1' ∷ []) ∷ [])) true)
              (told ++ (handle_bootloader_prompt ∷ [])))
  unfolding call_prompt prompt_detected select_mode_upgrade_fw send_bytes write_bytes
  command_sent bytes sent told whole = ground arith

  transfer_started :
      (c : ℕ) (cs bytes : List ℕ) (sent : List (List ℕ)) (told : List Notice)
      → ends_with_c (c ∷ cs) ≡ true
      → All (λ x. x ≢ 0) (c ∷ cs)
      → All (λ x. x ≢ b'G') (bytes ++ (c ∷ cs))
      → receive_console (c ∷ cs) (upgrading (console xmodem_ready_char_wait bytes sent true) told)
        ≡ served (
            upgrading
              (console xmodem_xfr (bytes ++ (c ∷ cs)) sent false)
              (told ++ (handle_firmware_xmodem_xfr ∷ [])))
  unfolding receive_console handle_console_data call_prompt
  transfer_started c cs bytes sent told ready no_zero no_g =
      ap (serve (upgrading (console xmodem_ready_char_wait bytes sent true) told)) (
        append_incoming-ready (console xmodem_ready_char_wait bytes sent true) c cs refl refl ready
          no_zero no_g)

  prompt_reached :
      (first : ℕ) (more pre version menu post : List ℕ) (v : ℕ) (sent : List (List ℕ))
      (told : List Notice)
      → All (λ x. x ≢ 0) (first ∷ more)
      → All (λ x. x ≢ b'G') pre
      → v ≢ b'\n'
      → first ∷ more ≡ banner pre v version menu post
      → (f sent (b'1' ∷ [])).written_cnt ≡ 1
      → (k : ℕ) × (receive_console
            (first ∷ more)
            (upgrading (console probe_stage [] sent false) told)
          ≡ served (
              upgrading
                (console xmodem_ready_char_wait
                  (drop k (menu_and_prompt v version menu post))
                  (sent ++ ((b'1' ∷ []) ∷ []))
                  true)
                (told ++ (handle_bootloader_prompt ∷ []))))
  unfolding receive_console handle_console_data
  prompt_reached first more pre version menu post v sent told no_zero no_g no_line whole wrote =
      let (k, reached, starts) =
        append_incoming-banner (console probe_stage [] sent false) first more pre version menu post
          v refl no_zero no_g no_line whole in
      (
        k,
        ap (serve (upgrading (console probe_stage [] sent false) told)) reached
            ∙ command_sent (drop k (menu_and_prompt v version menu post)) sent told wrote,
      )

-- A firmware upgrade that is asked for in the EZSP mode reaches the transfer: when the console's timer
-- has expired, the whole text of the bootloader arrives in one call, and then, in one more call, bytes
-- whose last is the ready character of X-modem, the probe and the command of the upgrade have been
-- written, nothing else, and the observers have been told of the prompt and then that the transfer can
-- start. The port takes the command whole, and no byte is zero. The text is the header, a version that
-- does not begin with the end of the line, that end, and later the prompt; neither what stands before
-- the header nor anything behind it has a `G`, and the bytes of the second call have none either.
pub upgrade_reaches_transfer :
    (d : EzspDongle) (f : WriteFunc) (first c v : ℕ) (more pre version menu post cs : List ℕ)
    → d.last_known_mode ≡ ezsp_ncp
    → d.blp.serial_write_func ≡ some f
    → (f (d.blp.sent ++ ((b'\n' ∷ []) ∷ [])) (b'1' ∷ [])).written_cnt ≡ 1
    → All (λ x. x ≢ 0) (first ∷ more)
    → All (λ x. x ≢ b'G') pre
    → v ≢ b'\n'
    → first ∷ more ≡ banner pre v version menu post
    → All (λ x. x ≢ b'G') (menu_and_prompt v version menu post)
    → ends_with_c (c ∷ cs) ≡ true
    → All (λ x. x ≢ 0) (c ∷ cs)
    → All (λ x. x ≢ b'G') (c ∷ cs)
    → let asked = console_timeout (set_mode bootloader_firmware_upgrade d) in
      (d' : EzspDongle) × (receive_consoles ((first ∷ more) ∷ (c ∷ cs) ∷ []) asked ≡ served d')
      × (d'.blp.state ≡ xmodem_xfr)
      × (d'.blp.sent ≡ d.blp.sent ++ ((b'\n' ∷ []) ∷ []) ++ ((b'1' ∷ []) ∷ []))
      × (d'.told ≡ d.told ++ (handle_bootloader_prompt ∷ []) ++ (handle_firmware_xmodem_xfr ∷ []))
      × (d'.last_known_mode ≡ bootloader_firmware_upgrade)
unfolding receive_consoles
upgrade_reaches_transfer d f first c v more pre version menu post cs mode port wrote no_zero no_g
      no_line whole menu_no_g ready ready_no_zero ready_no_g =
    let sent = d.blp.sent ++ ((b'\n' ∷ []) ∷ []) in
    let (k, reached) =
      prompt_reached d f first more pre version menu post v sent d.told no_zero no_g no_line whole
        wrote in
    let bytes = drop k (menu_and_prompt v version menu post) in
    let started =
      transfer_started d f c cs bytes (sent ++ ((b'1' ∷ []) ∷ []))
        (d.told ++ (handle_bootloader_prompt ∷ [])) ready ready_no_zero
        (All-append (λ x. x ≢ b'G') bytes (c ∷ cs)
          (All-drop (λ x. x ≢ b'G') k (menu_and_prompt v version menu post) menu_no_g)
          ready_no_g) in
    (
      upgrading d f (console d f xmodem_xfr (bytes ++ (c ∷ cs)) (sent ++ ((b'1' ∷ []) ∷ [])) false)
          (d.told ++ (handle_bootloader_prompt ∷ []) ++ (handle_firmware_xmodem_xfr ∷ [])),
      ap (receive_consoles ((first ∷ more) ∷ (c ∷ cs) ∷ [])) (probe_sent d f mode port)
          ∙ ap (then_console (receive_consoles ((c ∷ cs) ∷ []))) reached
          ∙ ap (then_console (receive_consoles [])) started,
      refl,
      refl,
      refl,
      refl,
    )

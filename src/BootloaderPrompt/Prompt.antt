-- ===== src/BootloaderPrompt/Prompt.antt =====
-- That the parser of the bootloader's console (src/ezsp/bootloader-prompt-driver.cpp) finds the prompt.
use libezsp.Common.{ℕ, suc, ◌+◌, ◌≤◌, ◌≡◌, ◌≢◌, ◌∙◌, ap, sym, arith}
use libezsp.Common.{if◌then◌else◌, Bool, true, false, List, [], ◌∷◌, ◌++◌, some, All}
use libezsp.Common.{codes, drop, length, length-append, starts_with, find_text, find_text-skip}
use libezsp.Common.{
  find_text-append, find_text_sound, drop-append, drop-length_add, drop-drop, find_text_absent,
  ◌&&◌,
}
use mathlib.Core.Path.{subst}
use mathlib.Core.List.{append_assoc, append-nil}
use libezsp.BootloaderPrompt.{BootloaderPromptDriver, Stage, probe_stage}
use libezsp.BootloaderPrompt.{toplevel_menu_header, toplevel_menu_content, toplevel_menu_prompt}
use libezsp.BootloaderPrompt.{xmodem_ready_char_wait, xmodem_xfr}
use libezsp.BootloaderPrompt.Console.{Parsed, parsed, gecko_bootloader_header}
use libezsp.BootloaderPrompt.Console.{gecko_bootloader_prompt, accumulate, find_header}
use libezsp.BootloaderPrompt.Console.{find_version, end_of_version, find_prompt, at_prompt}
use libezsp.BootloaderPrompt.Console.{
  has_callback, ends_with_c, at_header, then_prompt, start_transfer, parse_accumulated,
}
use libezsp.BootloaderPrompt.Console.{parse_console, append_incoming_console}

-- Bytes without a zero are appended.
accumulate_lem :
    (data_in acc : List ℕ)
    → All (λ c. c ≢ 0) data_in
    → accumulate data_in false acc ≡ (acc ++ data_in, false)
unfolding accumulate
accumulate_lem [] acc h = ap (λ (a : List ℕ). (a, false)) (sym (append-nil acc))
accumulate_lem (c ∷ cs) acc (ne, h) =
    ground (arith, accumulate_lem cs (acc ++ (c ∷ [])) h, append_assoc acc (c ∷ []) cs)

-- The line of the version, and the menu, behind the header.
abbrev pub menu_text : ℕ → List ℕ → List ℕ → List ℕ
menu_text v version menu = v ∷ ((version ++ (b'\n' ∷ [])) ++ menu)

-- What the bootloader prints.
abbrev pub banner : List ℕ → ℕ → List ℕ → List ℕ → List ℕ → List ℕ
banner pre v version menu post =
    (pre ++ gecko_bootloader_header)
    ++ ((menu_text v version menu ++ gecko_bootloader_prompt) ++ post)

header_found :
    (b : BootloaderPromptDriver) (pre rest : List ℕ)
    → All (λ c. c ≢ b'G') pre
    → b.accumulated_bytes ≡ (pre ++ gecko_bootloader_header) ++ rest
    → find_header b ≡ record b { state = toplevel_menu_header; accumulated_bytes = rest }
unfolding find_header
header_found b pre rest h e =
    let found : find_text gecko_bootloader_header b.accumulated_bytes ≡ some (length pre) =
      ap (find_text gecko_bootloader_header) e
      ∙ find_text-skip b'G' (codes "ecko Bootloader") pre rest h in
    let dropped : drop (length pre + 16) b.accumulated_bytes ≡ rest =
      ap (drop (length pre + 16)) (e ∙ append_assoc pre gecko_bootloader_header rest)
      ∙ drop-length_add 16 pre (gecko_bootloader_header ++ rest) in
    ap (λ o. at_header o b) found
    ∙ ap (λ bytes. record b { state = toplevel_menu_header; accumulated_bytes = bytes }) dropped

-- The line of the version ends behind its first byte and not behind the menu.
version_found :
    (v : ℕ) (version menu rest : List ℕ)
    → v ≢ b'\n'
    → (i : ℕ) × (find_text (b'\n' ∷ []) (menu_text v version menu ++ rest) ≡ some (suc i))
      × (suc i ≤ length (menu_text v version menu))
unfolding find_text starts_with
version_found v version menu rest ne =
    let (i, e, le) = find_text-append b'\n' [] version (menu ++ rest) in
    let same = append_assoc (version ++ (b'\n' ∷ [])) menu rest in
    let found : find_text (b'\n' ∷ []) ((version ++ (b'\n' ∷ [])) ++ menu ++ rest) ≡ some i =
      ap (find_text (b'\n' ∷ [])) same ∙ e in
    (i, ground (arith, found), simp length-append (omega arith))

-- The menu with the prompt, and what follows it.
abbrev pub menu_and_prompt : ℕ → List ℕ → List ℕ → List ℕ → List ℕ
menu_and_prompt v version menu post = menu_text v version menu ++ gecko_bootloader_prompt ++ post

-- The prompt is found behind the end of the line.
prompt_found :
    (v : ℕ) (version menu post : List ℕ) (i : ℕ)
    → i ≤ length (menu_text v version menu)
    → (j : ℕ) × (find_text gecko_bootloader_prompt (drop i (menu_and_prompt v version menu post))
        ≡ some j)
prompt_found v version menu post i le =
    let menu_left = drop i (menu_text v version menu) in
    let (j, e, small) = find_text-append b'B' (codes "L >") menu_left post in
    (
      j,
      ap (find_text gecko_bootloader_prompt) (
            ap (drop i) (append_assoc (menu_text v version menu) gecko_bootloader_prompt post)
            ∙ drop-append i (menu_text v version menu) (gecko_bootloader_prompt ++ post) le
            ∙ sym (append_assoc menu_left gecko_bootloader_prompt post))
          ∙ e,
    )

module _ (b : BootloaderPromptDriver) where
  abbrev at_stage : Stage → List ℕ → BootloaderPromptDriver
  at_stage stage bytes = record b { state = stage; accumulated_bytes = bytes }

  probed_lem :
      (first : ℕ) (more : List ℕ)
      → All (λ c. c ≢ 0) (first ∷ more)
      → b.state ≡ probe_stage
      → append_incoming_console (first ∷ more) b
        ≡ parse_accumulated false false
            (at_stage probe_stage (b.accumulated_bytes ++ (first ∷ more)))
  unfolding append_incoming_console parse_console start_transfer
  probed_lem first more no_zero probing =
      ap (λ stage. append_incoming_console (first ∷ more) (at_stage stage b.accumulated_bytes))
        probing
      ∙ ap (λ p. parse_accumulated false p.1 (at_stage probe_stage p.0))
          (accumulate_lem (first ∷ more) b.accumulated_bytes no_zero)

  version_lem :
      (bytes : List ℕ) (i : ℕ)
      → find_text (b'\n' ∷ []) bytes ≡ some (suc i)
      → find_version (at_stage toplevel_menu_header bytes)
        ≡ some (at_stage toplevel_menu_content (drop (suc i) bytes))
  unfolding find_version
  version_lem bytes i e = ap (λ o. end_of_version o (at_stage toplevel_menu_header bytes)) e

  prompt_lem :
      (bytes : List ℕ) (j : ℕ)
      → find_text gecko_bootloader_prompt bytes ≡ some j
      → find_prompt (at_stage toplevel_menu_content bytes)
        ≡ (at_stage toplevel_menu_prompt (drop j bytes), has_callback b.prompt_detect_callback)
  unfolding find_prompt
  prompt_lem bytes j e = ap (λ o. at_prompt o (at_stage toplevel_menu_content bytes)) e

  -- The ready character of X-modem, last among bytes that bring no other header.
  pub append_incoming-ready :
      (c : ℕ) (cs : List ℕ)
      → b.state ≡ xmodem_ready_char_wait
      → b.has_firmware_transfer_start_func ≡ true
      → ends_with_c (c ∷ cs) ≡ true
      → All (λ x. x ≢ 0) (c ∷ cs)
      → All (λ x. x ≢ b'G') (b.accumulated_bytes ++ (c ∷ cs))
      → append_incoming_console (c ∷ cs) b
        ≡ parsed
            (record b {
              state = xmodem_xfr;
              has_firmware_transfer_start_func = false;
              accumulated_bytes = b.accumulated_bytes ++ (c ∷ cs);
            })
            true
            false
            false
  unfolding append_incoming_console parse_console start_transfer parse_accumulated find_header
      find_version find_prompt
  append_incoming-ready c cs waits has_func ready no_zero no_g =
      let started : List ℕ → BootloaderPromptDriver = λ bytes. record b {
        state = xmodem_xfr;
        has_firmware_transfer_start_func = false;
        accumulated_bytes = bytes;
      } in
      let waiting : BootloaderPromptDriver = record b {
        state = xmodem_ready_char_wait;
        has_firmware_transfer_start_func = true;
      } in
      let received = accumulate (c ∷ cs) false b.accumulated_bytes in
      let going_on : BootloaderPromptDriver × Bool → Parsed =
        λ s. parse_accumulated s.1 received.1 (record (s.0) { accumulated_bytes = received.0 }) in
      ap (λ stage. append_incoming_console (c ∷ cs) (record b { state = stage })) waits
      ∙ ap
          (λ h.
            append_incoming_console (c ∷ cs)
              (record b { state = xmodem_ready_char_wait; has_firmware_transfer_start_func = h }))
          has_func
      ∙ ap (λ e. going_on (if e then (started b.accumulated_bytes, true) else (waiting, false)))
          (ap (λ e. e && true) ready)
      ∙ ap (λ p. parse_accumulated true p.1 (started p.0))
          (accumulate_lem (c ∷ cs) b.accumulated_bytes no_zero)
      ∙ ap
          (λ o.
            then_prompt true false
              (find_version (at_header o (started (b.accumulated_bytes ++ (c ∷ cs))))))
          (find_text_absent b'G' (codes "ecko Bootloader") (b.accumulated_bytes ++ (c ∷ cs)) no_g)

-- The bootloader's text, however its last part arrives: while the parser probes, bytes that complete a
-- text which holds the header with a version behind it, the end of its line, and later the prompt,
-- bring it to the prompt, call the prompt's callback where there is one, and leave the text from a
-- prompt on. None of these bytes is zero, what stands before the header has no `G`, and the version
-- does not begin with the end of the line.
pub append_incoming-banner :
    (b : BootloaderPromptDriver) (first : ℕ) (more pre version menu post : List ℕ) (v : ℕ)
    → b.state ≡ probe_stage
    → All (λ c. c ≢ 0) (first ∷ more)
    → All (λ c. c ≢ b'G') pre
    → v ≢ b'\n'
    → b.accumulated_bytes ++ (first ∷ more) ≡ banner pre v version menu post
    → (k : ℕ) × (append_incoming_console (first ∷ more) b
        ≡ parsed
            (record b {
              state = toplevel_menu_prompt;
              accumulated_bytes = drop k (menu_and_prompt v version menu post);
            })
            false
            (has_callback b.prompt_detect_callback)
            false)
      × (starts_with gecko_bootloader_prompt (drop k (menu_and_prompt v version menu post)) ≡ true)
unfolding parse_accumulated
append_incoming-banner b first more pre version menu post v probing no_zero no_g no_line whole =
    let (i, line, le) = version_found v version menu (gecko_bootloader_prompt ++ post) no_line in
    let behind = menu_and_prompt v version menu post in
    let (j, found) = prompt_found v version menu post (suc i) le in
    let line_here : find_text (b'\n' ∷ []) behind ≡ some (suc i) =
      ap (find_text (b'\n' ∷ []))
        (append_assoc (menu_text v version menu) gecko_bootloader_prompt post)
      ∙ line in
    let start = at_stage b probe_stage (b.accumulated_bytes ++ (first ∷ more)) in
    let rest = drop (suc i) behind in
    (
      suc i + j,
      probed_lem b first more no_zero probing
          ∙ ap (λ h. then_prompt false false (find_version h))
              (header_found start pre behind no_g whole)
          ∙ ap (then_prompt false false) (version_lem b behind i line_here)
          ∙ ap (λ p. parsed p.0 false p.1 false) (prompt_lem b rest j found)
          ∙ ap
              (λ bytes.
                parsed (at_stage b toplevel_menu_prompt bytes) false
                  (has_callback b.prompt_detect_callback) false)
              (drop-drop (suc i) j behind),
      subst (λ bytes. starts_with gecko_bootloader_prompt bytes ≡ true) (drop-drop (suc i) j behind)
          (find_text_sound gecko_bootloader_prompt rest j found),
    )

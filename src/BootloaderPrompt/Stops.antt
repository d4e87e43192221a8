-- ===== src/BootloaderPrompt/Stops.antt =====
-- Which calls of the console's parser (src/ezsp/bootloader-prompt-driver.cpp: handleInputData and
-- appendIncoming) make a version string whose end lies before its beginning.
use libezsp.Common.{ℕ, ◌≡◌, ◌∙◌, inl, inr, refl, ap, arith, if◌then◌else◌}
use libezsp.Common.{Bool, true, false, List, [], ◌∷◌, Option, none, some}
use libezsp.Common.{find_text}
use libezsp.Common.{◌≢◌, ◌↔◌, if_true}
use mathlib.Core.Path.{subst}
use libezsp.BootloaderPrompt.{BootloaderPromptDriver, Stage, toplevel_menu_header, rx_flush}
use libezsp.BootloaderPrompt.Console.{Parsed, parsed, broken_version, gecko_bootloader_header}
use libezsp.BootloaderPrompt.Console.{accumulate, find_header}
use libezsp.BootloaderPrompt.Console.{find_version, start_transfer, then_prompt}
use libezsp.BootloaderPrompt.Console.{parse_accumulated, parse_console, append_incoming_console}
use libezsp.BootloaderPrompt.Console.{handle_console_data}
use libezsp.BootloaderPrompt.{probe_stage, toplevel_menu_content, toplevel_menu_prompt}
use libezsp.BootloaderPrompt.{xmodem_ready_char_wait, xmodem_xfr}
use libezsp.BootloaderPrompt.Broken.{HasEmptyVersion, reason, breaks_behind, breaks_at}

-- Where the parser stops, the reason holds.
abbrev pub Stops : Type 0 → Parsed → Type 0
Stops E (parsed b transfers prompted last_nul) = Unit
Stops E broken_version = E

then_prompt-Stops :
    (E : Type 0) (transfers last_nul : Bool) (o : Option BootloaderPromptDriver)
    → (o ≡ none → E)
    → Stops E (then_prompt transfers last_nul o)
then_prompt-Stops E transfers last_nul none h = h refl
then_prompt-Stops E transfers last_nul (some b) h = tt

transfer_state :
    (data_in : List ℕ) (b : BootloaderPromptDriver)
    → (start_transfer data_in b).0.state ≡ toplevel_menu_header
    → b.state ≡ toplevel_menu_header
unfolding start_transfer
transfer_state data_in b h = ground arith

transfer_same :
    (data_in : List ℕ) (b : BootloaderPromptDriver)
    → b.state ≡ toplevel_menu_header
    → (start_transfer data_in b).0.state ≡ toplevel_menu_header
unfolding start_transfer
transfer_same data_in b h = ground arith

parse-Stops :
    (data_in : List ℕ) (b : BootloaderPromptDriver)
    → Stops (HasEmptyVersion data_in b) (parse_console data_in b)
unfolding parse_console parse_accumulated find_header
parse-Stops data_in b =
    let (b', transfers) = start_transfer data_in b in
    let (text, last_nul) = accumulate data_in false b.accumulated_bytes in
    then_prompt-Stops (HasEmptyVersion data_in b) transfers last_nul
      (find_version (find_header (record b' { accumulated_bytes = text })))
      (λ h. elim (reason text b' (find_text gecko_bootloader_header text) refl h) [
        | inl behind ↦ inl behind
        | inr (state, post, e, absent) ↦ inr (transfer_state data_in b state, post, e, absent)
      ])

stage-Stops :
    (E : Type 0) (stage : Stage) (p q : Parsed)
    → Stops E p
    → Stops E q
    → Stops E (elim stage [ rx_flush ↦ p | _ ↦ q ])
stage-Stops E rx_flush p q h k = h
stage-Stops E probe_stage p q h k = k
stage-Stops E toplevel_menu_header p q h k = k
stage-Stops E toplevel_menu_content p q h k = k
stage-Stops E toplevel_menu_prompt p q h k = k
stage-Stops E xmodem_ready_char_wait p q h k = k
stage-Stops E xmodem_xfr p q h k = k

append-Stops :
    (data_in : List ℕ) (b : BootloaderPromptDriver)
    → Stops (HasEmptyVersion data_in b) (append_incoming_console data_in b)
unfolding append_incoming_console
append-Stops [] b = tt
append-Stops (val ∷ rest) b =
    stage-Stops (HasEmptyVersion (val ∷ rest) b) b.state _ (parse_console (val ∷ rest) b) tt
      (parse-Stops (val ∷ rest) b)

enabled-Stops :
    (E : Type 0) (e : Bool) (p q : Parsed) → Stops E p → Stops E q → Stops E (if e then p else q)
enabled-Stops E true p q h k = h
enabled-Stops E false p q h k = k

-- The parser stops only at an empty version.
pub handle_console_data-Stops :
    (data_in : List ℕ) (b : BootloaderPromptDriver)
    → Stops (HasEmptyVersion data_in b) (handle_console_data data_in b)
unfolding handle_console_data
handle_console_data-Stops data_in b =
    enabled-Stops (HasEmptyVersion data_in b) b.enabled (append_incoming_console data_in b)
      (parsed b false false false) (append-Stops data_in b) tt

not_flushed :
    (stage : Stage) (p q : Parsed) → stage ≢ rx_flush → (elim stage [ rx_flush ↦ p | _ ↦ q ]) ≡ q
not_flushed rx_flush p q h = absurd (h refl)
not_flushed probe_stage p q h = refl
not_flushed toplevel_menu_header p q h = refl
not_flushed toplevel_menu_content p q h = refl
not_flushed toplevel_menu_prompt p q h = refl
not_flushed xmodem_ready_char_wait p q h = refl
not_flushed xmodem_xfr p q h = refl

version_breaks :
    (data_in : List ℕ) (b : BootloaderPromptDriver)
    → HasEmptyVersion data_in b
    → find_version (
        find_header (record ((start_transfer data_in b).0) {
          accumulated_bytes = (accumulate data_in false b.accumulated_bytes).0;
        }))
      ≡ none
version_breaks data_in b (inl (pre, post, whole, found)) =
    breaks_behind (accumulate data_in false b.accumulated_bytes).0 (start_transfer data_in b).0 pre
      post whole found
version_breaks data_in b (inr (state, post, whole, absent)) =
    breaks_at (accumulate data_in false b.accumulated_bytes).0 (start_transfer data_in b).0 post
      (transfer_same data_in b state) whole absent

-- The parser of a console that is enabled and no longer flushes the first bytes makes a version string
-- whose end lies before its beginning exactly where a call brings bytes with which an empty line
-- stands behind the first header of the accumulated text, or, where there is no header and the version
-- is waited for, at the beginning of that text.
pub empty_version_breaks :
    (val : ℕ) (rest : List ℕ) (b : BootloaderPromptDriver)
    → b.enabled ≡ true
    → b.state ≢ rx_flush
    → (handle_console_data (val ∷ rest) b ≡ broken_version) ↔ HasEmptyVersion (val ∷ rest) b
unfolding handle_console_data append_incoming_console parse_console parse_accumulated
empty_version_breaks val rest b enabled going =
    let data_in = val ∷ rest in
    let (b', transfers) = start_transfer data_in b in
    let (text, last_nul) = accumulate data_in false b.accumulated_bytes in
    (
      (λ broken.
          subst (Stops (HasEmptyVersion data_in b)) broken (handle_console_data-Stops data_in b)),
      λ empty.
          if_true _ enabled
          ∙ not_flushed b.state _ (parse_console data_in b) going
          ∙ ap (then_prompt transfers last_nul) (version_breaks data_in b empty),
    )

-- ===== src/BootloaderPrompt/Console.antt =====
-- The parser of the bootloader's console (src/ezsp/bootloader-prompt-driver.cpp: handleInputData,
-- appendIncoming and trim). The functions that it calls back are reported to the caller, who calls
-- them.
use libezsp.Common.{
  ℕ, zero, suc, ◌+◌, ◌==◌, ◌!=◌, ◌||◌, ◌&&◌, leb, if◌then◌else◌, Bool, true, false,
}
use libezsp.Common.{List, [], ◌∷◌, ◌++◌, Option, none, some, drop, length, codes, find_text}
use libezsp.BootloaderPrompt.{BootloaderPromptDriver, Stage, gecko_quiet_rx_timeout, rx_flush}
use libezsp.BootloaderPrompt.{toplevel_menu_header, toplevel_menu_content}
use libezsp.BootloaderPrompt.{toplevel_menu_prompt, xmodem_ready_char_wait, xmodem_xfr}

abbrev pub gecko_bootloader_header : List ℕ
gecko_bootloader_header = codes "Gecko Bootloader"

abbrev pub gecko_bootloader_prompt : List ℕ
gecko_bootloader_prompt = codes "BL >"

-- The state, whether firmwareTransferStartFunc has been called, whether promptDetectCallback is called
-- at the end, and whether the accumulated bytes are cleared after it; `broken_version` is a version
-- string whose end lies before its beginning.
pub data Parsed : Type 0 where
  parsed : BootloaderPromptDriver → Bool → Bool → Bool → Parsed
  broken_version : Parsed

-- std::isspace of the C locale.
unfoldable pub is_space : ℕ → Bool
is_space c = (c == 32) || (leb 9 c && leb c 13)

unfoldable pub skip_spaces : List ℕ → List ℕ
skip_spaces [] = []
skip_spaces (c ∷ s) = let rest = skip_spaces s in if is_space c then rest else c ∷ s

unfoldable pub drop_end_spaces : List ℕ → List ℕ
drop_end_spaces [] = []
drop_end_spaces (c ∷ s) = keep_first c (drop_end_spaces s)
  where
    keep_first : ℕ → List ℕ → List ℕ
    keep_first c [] = if is_space c then [] else c ∷ []
    keep_first c (d ∷ s) = c ∷ d ∷ s

unfoldable pub trim : List ℕ → List ℕ
unfolding skip_spaces drop_end_spaces
trim s = drop_end_spaces (skip_spaces s)

-- The bytes of a call are accumulated; a zero byte discards what is before it as soon as another byte
-- follows. The flag tells whether the last byte was zero.
unfoldable pub accumulate : List ℕ → Bool → List ℕ → List ℕ × Bool
accumulate [] last_rx_byte_is_nul accumulated = (accumulated, last_rx_byte_is_nul)
accumulate (val ∷ rest) last_rx_byte_is_nul accumulated =
    let kept = if last_rx_byte_is_nul then [] else accumulated in
    accumulate rest (val == 0) (if val != 0 then kept ++ (val ∷ []) else kept)

abbrev pub at_header : Option ℕ → BootloaderPromptDriver → BootloaderPromptDriver
at_header none b = b
at_header (some blh) b = record b {
  state = toplevel_menu_header;
  accumulated_bytes = drop (blh + length gecko_bootloader_header) b.accumulated_bytes;
}

unfoldable pub find_header : BootloaderPromptDriver → BootloaderPromptDriver
find_header b = at_header (find_text gecko_bootloader_header b.accumulated_bytes) b

-- The version is what stands before the line's end, without its last byte; `none` where the line is
-- empty. It is only printed: where one byte stands before the line's end, `trim` is given an empty
-- string, steps to the place before its beginning and back, and returns it.
abbrev pub end_of_version : Option ℕ → BootloaderPromptDriver → Option BootloaderPromptDriver
end_of_version none b = some b
end_of_version (some zero) b = none
end_of_version (some (suc eol_char)) b = some (record b {
  state = toplevel_menu_content;
  accumulated_bytes = drop (suc eol_char) b.accumulated_bytes;
})

unfoldable pub find_version : BootloaderPromptDriver → Option BootloaderPromptDriver
find_version b = elim b.state [
  | toplevel_menu_header ↦ end_of_version (find_text (b'\n' ∷ []) b.accumulated_bytes) b
  | _ ↦ some b
]

abbrev is_menu : Stage → Bool
is_menu toplevel_menu_header = true
is_menu toplevel_menu_content = true
is_menu _ = false

abbrev pub has_callback {ℓ} : {A : Type ℓ} → Option A → Bool
has_callback none = false
has_callback (some f) = true

abbrev pub at_prompt : Option ℕ → BootloaderPromptDriver → BootloaderPromptDriver × Bool
at_prompt none b = (b, false)
at_prompt (some bl_prompt) b = (
  record b { state = toplevel_menu_prompt; accumulated_bytes = drop bl_prompt b.accumulated_bytes },
  has_callback b.prompt_detect_callback,
)

unfoldable pub find_prompt : BootloaderPromptDriver → BootloaderPromptDriver × Bool
find_prompt b =
    if is_menu b.state
    then at_prompt (find_text gecko_bootloader_prompt b.accumulated_bytes) b
    else (b, false)

abbrev pub ends_with_c : List ℕ → Bool
ends_with_c [] = false
ends_with_c (c ∷ []) = c == b'C'
ends_with_c (c ∷ d ∷ s) = ends_with_c (d ∷ s)

-- The transfer starts when the adapter sends the ready character of X-modem last.
unfoldable pub start_transfer : List ℕ → BootloaderPromptDriver → BootloaderPromptDriver × Bool
start_transfer i_data b = elim b.state [
  | xmodem_ready_char_wait ↦
      if ends_with_c i_data && b.has_firmware_transfer_start_func
      then (record b { state = xmodem_xfr; has_firmware_transfer_start_func = false }, true)
      else (b, false)
  | _ ↦ (b, false)
]

abbrev pub then_prompt : Bool → Bool → Option BootloaderPromptDriver → Parsed
then_prompt transfers last_nul none = broken_version
then_prompt transfers last_nul (some b) =
    let (b', prompted) = find_prompt b in parsed b' transfers prompted last_nul

-- What follows the accumulation.
unfoldable pub parse_accumulated : Bool → Bool → BootloaderPromptDriver → Parsed
unfolding find_header find_version find_prompt
parse_accumulated transfers last_nul b =
    then_prompt transfers last_nul (find_version (find_header b))

unfoldable pub parse_console : List ℕ → BootloaderPromptDriver → Parsed
unfolding start_transfer accumulate parse_accumulated
parse_console i_data b =
    let (b', transfers) = start_transfer i_data b in
    let (bytes, last_nul) = accumulate i_data false b.accumulated_bytes in
    parse_accumulated transfers last_nul (record b' { accumulated_bytes = bytes })

-- appendIncoming. While the first bytes are flushed, they only start the timer again.
unfoldable pub append_incoming_console : List ℕ → BootloaderPromptDriver → Parsed
unfolding parse_console
append_incoming_console [] b = parsed b false false false
append_incoming_console (val ∷ rest) b = elim b.state [
  | rx_flush ↦ parsed (record b { timer = some gecko_quiet_rx_timeout }) false false false
  | _ ↦ parse_console (val ∷ rest) b
]

unfoldable pub handle_console_data : List ℕ → BootloaderPromptDriver → Parsed
unfolding append_incoming_console
handle_console_data data_in b =
    if b.enabled then append_incoming_console data_in b else parsed b false false false

-- ===== src/Dongle/Console.antt =====
-- CEzspDongle (src/ezsp/ezsp-dongle.cpp) over the bootloader's console
-- (src/ezsp/bootloader-prompt-driver.cpp): the two functions that the console's parser calls back, and
-- the timer of the console.
use libezsp.Common.{refl, Bool, true, false, List, [], ◌∷◌, Option, none, some, ℕ}
use libezsp.BootloaderPrompt as Prompt
use libezsp.BootloaderPrompt.{BootloaderPromptDriver}
use libezsp.BootloaderPrompt.Console.{Parsed, parsed, broken_version, handle_console_data}
use libezsp.Dongle.{EzspDongle, notify_observers_of_dongle_state, handle_firmware_xmodem_xfr}
use libezsp.Dongle.Receive.{prompt_detected}
use libezsp.Dongle.Reset.{prompt_detected-IsWell}
use libezsp.Dongle.Well.{IsWell, IsKept}
use libezsp.Dongle.Calls.{same_core-IsWell}
use libezsp.Common.{◌≡◌, ◌⊎◌, inl, inr}
use libezsp.BootloaderPrompt.Broken.{HasEmptyVersion}
use libezsp.BootloaderPrompt.Stops.{Stops, handle_console_data-Stops}

-- A call ends with a state, is hung in a frame that is never forged, or makes a version string whose
-- end lies before its beginning.
pub data Served : Type 0 where
  served : EzspDongle → Served
  hung broken : Served

-- notifyObserversOfFirmwareXModemXfrReady.
abbrev pub tell_transfer : Bool → EzspDongle → EzspDongle
tell_transfer false d = d
tell_transfer true d = notify_observers_of_dongle_state handle_firmware_xmodem_xfr d

unfoldable pub call_prompt : Bool → EzspDongle → Option EzspDongle
call_prompt false d = some d
call_prompt true d = elim d.blp.prompt_detect_callback [
  | none ↦ some d
  | some callback ↦ prompt_detected callback d
]

-- The accumulated bytes go where the last byte was zero.
abbrev pub clear_console : Bool → EzspDongle → EzspDongle
clear_console false d = d
clear_console true d = record d { blp = record (d.blp) { accumulated_bytes = [] } }

abbrev pub then_clear : Bool → Option EzspDongle → Served
then_clear last_nul none = hung
then_clear last_nul (some d) = served (clear_console last_nul d)

abbrev pub serve : EzspDongle → Parsed → Served
serve d broken_version = broken
serve d (parsed b transfers prompted last_nul) =
    then_clear last_nul (call_prompt prompted (tell_transfer transfers (record d { blp = b })))

unfoldable pub receive_console : List ℕ → EzspDongle → Served
unfolding call_prompt
receive_console data_in d = serve d (handle_console_data data_in d.blp)

abbrev pub then_console : (EzspDongle → Served) → Served → Served
then_console f (served d) = f d
then_console f hung = hung
then_console f broken = broken

unfoldable pub receive_consoles : List (List ℕ) → EzspDongle → Served
unfolding receive_console
receive_consoles [] d = served d
receive_consoles (data_in ∷ rest) d =
    then_console (receive_consoles rest) (receive_console data_in d)

-- The timer of the console expires, which sends the probe.
unfoldable pub console_timeout : EzspDongle → EzspDongle
console_timeout d = record d { blp = Prompt.probe (record (d.blp) { timer = none }) }

-- A call that ends keeps the invariant; it is never hung; where it breaks, the reason holds.
abbrev pub IsServed : Type 0 → Served → Type 0
IsServed E (served d) = IsWell d
IsServed E hung = ⊥
IsServed E broken = E

told-IsWell :
    (transfers : Bool) (b : BootloaderPromptDriver) (d : EzspDongle)
    → IsWell d
    → IsWell (tell_transfer transfers (record d { blp = b }))
told-IsWell true b d w = same_core-IsWell d _ refl refl refl refl w
told-IsWell false b d w = same_core-IsWell d _ refl refl refl refl w

callback-IsWell :
    (callback : Option Prompt.PromptCallback) (d : EzspDongle)
    → IsWell d
    → IsKept (elim callback [ none ↦ some d | some callback ↦ prompt_detected callback d ])
callback-IsWell none d w = w
callback-IsWell (some callback) d w = prompt_detected-IsWell callback d w

call_prompt-IsWell : (prompted : Bool) (d : EzspDongle) → IsWell d → IsKept (call_prompt prompted d)
unfolding call_prompt
call_prompt-IsWell true d w = callback-IsWell d.blp.prompt_detect_callback d w
call_prompt-IsWell false d w = w

cleared-IsServed :
    (E : Type 0) (last_nul : Bool) (o : Option EzspDongle)
    → IsKept o
    → IsServed E (then_clear last_nul o)
cleared-IsServed E last_nul none k = k
cleared-IsServed E true (some d) w = same_core-IsWell d _ refl refl refl refl w
cleared-IsServed E false (some d) w = w

serve-IsServed :
    (E : Type 0) (d : EzspDongle) (p : Parsed) → Stops E p → IsWell d → IsServed E (serve d p)
serve-IsServed E d broken_version h w = h
serve-IsServed E d (parsed b transfers prompted last_nul) h w =
    cleared-IsServed E last_nul
      (call_prompt prompted (tell_transfer transfers (record d { blp = b })))
      (call_prompt-IsWell prompted _ (told-IsWell transfers b d w))

pub receive_console-IsServed :
    (data_in : List ℕ) (d : EzspDongle)
    → IsWell d
    → IsServed (HasEmptyVersion data_in d.blp) (receive_console data_in d)
unfolding receive_console
receive_console-IsServed data_in d w =
    serve-IsServed (HasEmptyVersion data_in d.blp) d (handle_console_data data_in d.blp)
      (handle_console_data-Stops data_in d.blp) w

-- One of the calls brings an empty version, after those before it have ended.
abbrev pub BreaksAt : List (List ℕ) → EzspDongle → Type 0
BreaksAt [] d = ⊥
BreaksAt (data_in ∷ rest) d =
    HasEmptyVersion data_in d.blp
    ⊎ ((d' : EzspDongle) × (receive_console data_in d ≡ served d') × BreaksAt rest d')

later-IsServed :
    (data_in : List ℕ) (rest : List (List ℕ)) (d d' : EzspDongle) (s : Served)
    → receive_console data_in d ≡ served d'
    → IsServed (BreaksAt rest d') s
    → IsServed (BreaksAt (data_in ∷ rest) d) s
later-IsServed data_in rest d d' (served d'') e w = w
later-IsServed data_in rest d d' hung e w = w
later-IsServed data_in rest d d' broken e w = inr (d', e, w)

then-IsServed :
    (data_in : List ℕ) (rest : List (List ℕ)) (d : EzspDongle) (s : Served)
    → receive_console data_in d ≡ s
    → IsServed (HasEmptyVersion data_in d.blp) s
    → ((d' : EzspDongle) → IsWell d' → IsServed (BreaksAt rest d') (receive_consoles rest d'))
    → IsServed (BreaksAt (data_in ∷ rest) d) (then_console (receive_consoles rest) s)
then-IsServed data_in rest d (served d') e w h =
    later-IsServed data_in rest d d' (receive_consoles rest d') e (h d' w)
then-IsServed data_in rest d hung e w h = w
then-IsServed data_in rest d broken e w h = inl w

-- Whatever arrives from the bootloader's console, in any number of calls, an adapter's driver with its
-- invariant either keeps the invariant to the end, or stops at a call that brings an empty version:
-- one with which an empty line stands behind the first header of the accumulated text, or at its
-- beginning where the version is waited for and there is no header. No call is hung.
pub receive_consoles-IsServed :
    (calls : List (List ℕ)) (d : EzspDongle)
    → IsWell d
    → IsServed (BreaksAt calls d) (receive_consoles calls d)
unfolding receive_consoles
receive_consoles-IsServed [] d w = w
receive_consoles-IsServed (data_in ∷ rest) d w =
    then-IsServed data_in rest d (receive_console data_in d) refl
      (receive_console-IsServed data_in d w) (receive_consoles-IsServed rest)

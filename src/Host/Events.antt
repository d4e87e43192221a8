-- ===== src/Host/Events.antt =====
-- A history of the library and its dongle (src/ezsp/ezsp.cpp, src/ezsp/lib-ezsp-main.cpp,
-- src/ezsp/ezsp-dongle.cpp and the drivers below it): bytes of the serial port, timers, and requests
-- of the application, in any order.
use libezsp.Common.{ℕ, ◌≤◌, refl, List, [], ◌∷◌, All, IsU8, length}
use libezsp.Common.{◌≡◌, ◌⊎◌, inl, inr}
use libezsp.BootloaderPrompt.Broken.{HasEmptyVersion}
use libezsp.Commissioning.{Aes}
use libezsp.Effects.{ran}
use libezsp.Dongle.Console.{console_timeout}
use libezsp.Api.{Request, call}
use libezsp.LibMain.Init.{Draws}
use libezsp.LibMain.Steps.{Step-IsSound}
use libezsp.LibMain.StepRequests.{IsKeyedRequest, call-Step}
use libezsp.Dongle.Calls.{same_core-IsWell}
use libezsp.Host.{Host, perform, IsWellHost, performed-IsWell}
use libezsp.Host.Link.{HostRun, going, host_hung, host_broken, host_run, host_fed, host_serial}
use libezsp.Host.Link.{host_ash_timeout, host_console}
use libezsp.Host.Safe.{IsSafeHost, run-IsSafeHost, fed-IsSafeHost, host_serial-FedBy}
use libezsp.Host.Safe.{host_ash_timeout-IsWell, host_console-IsSafeHost}

-- Bytes of the serial port, read by the link or by the bootloader's console; the timers of the two;
-- a request of the application. With bytes goes what is drawn at random for each message.
pub data HostEvent : Type 0 where
  serial_received : (ℕ → Draws) → List ℕ → HostEvent
  link_timed_out console_timed_out : HostEvent
  console_received : List ℕ → HostEvent
  request_made : Request → HostEvent

unfoldable pub host_event : Aes → HostEvent → Host → HostRun
unfolding host_serial host_ash_timeout host_console call
host_event aes (serial_received draws bytes) h = host_fed (host_serial aes draws bytes h)
host_event aes link_timed_out h = host_run (host_ash_timeout h)
host_event aes console_timed_out h = going (record h { dongle = console_timeout h.dongle })
host_event aes (console_received bytes) h = host_console bytes h
host_event aes (request_made r) h =
    let (m, es, accepted) = call r h.main in host_run (perform (ran m es) h.dongle)

unfoldable pub host_events : Aes → List HostEvent → Host → HostRun
unfolding host_event
host_events aes [] h = going h
host_events aes (e ∷ es) h = elim (host_event aes e h) [
  | going h' ↦ host_events aes es h'
  | host_hung ↦ host_hung
  | host_broken ↦ host_broken
]

-- What is received is bytes; each network key that is drawn and each key of a device that is added
-- has at most 16 bytes.
abbrev pub IsFairEvent : HostEvent → Type 0
IsFairEvent (serial_received draws bytes) =
    All IsU8 bytes × ((n : ℕ) → length (draws n).network_key ≤ 16)
IsFairEvent link_timed_out = Unit
IsFairEvent console_timed_out = Unit
IsFairEvent (console_received bytes) = Unit
IsFairEvent (request_made r) = IsKeyedRequest r

-- The event brings an empty version from the bootloader's console.
abbrev pub BringsEmptyVersion : HostEvent → Host → Type 0
BringsEmptyVersion (serial_received draws bytes) h = ⊥
BringsEmptyVersion link_timed_out h = ⊥
BringsEmptyVersion console_timed_out h = ⊥
BringsEmptyVersion (console_received bytes) h = HasEmptyVersion bytes h.dongle.blp
BringsEmptyVersion (request_made r) h = ⊥

-- One of the events does, after those before it have ended.
abbrev pub HistoryBreaks : Aes → List HostEvent → Host → Type 0
HistoryBreaks aes [] h = ⊥
HistoryBreaks aes (e ∷ es) h =
    BringsEmptyVersion e h
    ⊎ ((h' : Host) × (host_event aes e h ≡ going h') × HistoryBreaks aes es h')

host_event-IsSafe :
    (aes : Aes) (e : HostEvent) (h : Host)
    → IsFairEvent e
    → IsWellHost h
    → IsSafeHost (BringsEmptyVersion e h) (host_event aes e h)
unfolding host_event console_timeout
host_event-IsSafe aes (serial_received draws bytes) h (hb, k) w =
    fed-IsSafeHost ⊥ (host_serial aes draws bytes h) (host_serial-FedBy aes draws bytes h hb k w)
host_event-IsSafe aes link_timed_out h k w =
    run-IsSafeHost ⊥ (host_ash_timeout h) (host_ash_timeout-IsWell h w)
host_event-IsSafe aes console_timed_out h k w = record {
  main_sound = w.main_sound;
  dongle_well = same_core-IsWell h.dongle _ refl refl refl refl w.dongle_well;
}
host_event-IsSafe aes (console_received bytes) h k w = host_console-IsSafeHost bytes h w
host_event-IsSafe aes (request_made r) h k w =
    let (m, es, accepted) = call r h.main in
    let s = call-Step r h.main k w.main_sound in
    run-IsSafeHost ⊥ (perform (ran m es) h.dongle)
      (performed-IsWell m es h.dongle (Step-IsSound h.main m es s) s.short w.dongle_well)

later-IsSafeHost :
    (aes : Aes) (e : HostEvent) (es : List HostEvent) (h h' : Host) (r : HostRun)
    → host_event aes e h ≡ going h'
    → IsSafeHost (HistoryBreaks aes es h') r
    → IsSafeHost (HistoryBreaks aes (e ∷ es) h) r
later-IsSafeHost aes e es h h' (going h'') went k = k
later-IsSafeHost aes e es h h' host_hung went k = k
later-IsSafeHost aes e es h h' host_broken went k = inr (h', went, k)

then-IsSafeHost :
    (aes : Aes) (e : HostEvent) (es : List HostEvent) (h : Host) (r : HostRun)
    → host_event aes e h ≡ r
    → IsSafeHost (BringsEmptyVersion e h) r
    → ((h' : Host) → IsWellHost h' → IsSafeHost (HistoryBreaks aes es h') (host_events aes es h'))
    → IsSafeHost (HistoryBreaks aes (e ∷ es) h) (elim r [
      | going h' ↦ host_events aes es h'
      | host_hung ↦ host_hung
      | host_broken ↦ host_broken
    ])
then-IsSafeHost aes e es h (going h') went k g =
    later-IsSafeHost aes e es h h' (host_events aes es h') went (g h' k)
then-IsSafeHost aes e es h host_hung went k g = k
then-IsSafeHost aes e es h host_broken went k g = inl k

-- Whatever happens to the library and its dongle, in whatever order (bytes of the serial port, for
-- the link or for the bootloader's console, the expiry of either's timer, requests of the
-- application), no event is hung: no frame is refused as too long and no loop goes on for ever. What
-- holds of the dongle between two calls still holds, together with the bounds of the library's
-- expected EZSP version and of the keys in its sink, unless an event of the history is text of the
-- bootloader's console with an empty version, which ends it: an empty line behind the header, or at the
-- beginning of the text where the version is waited for. Each network key that is drawn and each key
-- of a device that is added has at most 16 bytes.
pub host_events-IsSafe :
    (aes : Aes) (es : List HostEvent) (h : Host)
    → All IsFairEvent es
    → IsWellHost h
    → IsSafeHost (HistoryBreaks aes es h) (host_events aes es h)
unfolding host_events
host_events-IsSafe aes [] h ks w = w
host_events-IsSafe aes (e ∷ es) h (k, ks) w =
    then-IsSafeHost aes e es h (host_event aes e h) refl (host_event-IsSafe aes e h k w)
      (λ h' w'. host_events-IsSafe aes es h' ks w')

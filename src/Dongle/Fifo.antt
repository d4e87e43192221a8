-- ===== src/Dongle/Fifo.antt =====
-- CEzspDongle (src/ezsp/ezsp-dongle.cpp) as a queue of commands: whatever the order of the calls,
-- commands leave it first in first out, each on its own response, and one at a time.
use libezsp.Common.{ℕ, ◌≤◌, ◌≡◌, refl, arith, ◌==◌, ◌∙◌, ap, sym}
use libezsp.Common.{Bool, true, false, List, [], ◌∷◌, ◌++◌, length, Option, none, some}
use libezsp.Common.{All, if◌then◌else◌}
use libezsp.Ash.Codec.{AshInfo, ash_reset_failed, ash_ack, ash_nack}
use libezsp.Ash.Codec.{ash_state_disconnected, ash_state_connected}
use libezsp.Dongle.{EzspDongle, Msg, Mode, send_front, send_next_msg, send_command}
use libezsp.Dongle.{handle_response, set_mode, ezsp_message}
use libezsp.Dongle.{bootloader_firmware_upgrade, bootloader_exit_to_ezsp_ncp}
use libezsp.Driver.{AshDriver, send_data_frame}
use libezsp.Dongle.Receive.{ash_cb_info, reset_failed}
use libezsp.Dongle.Well.{IsWell, IsKept, send_command-IsWell, handle_response-IsWell}
use libezsp.Dongle.Calls.{set_mode-IsWell, set_mode-core, ash_cb_info-IsWell}
use mathlib.Core.Option
use mathlib.Core.Path.{subst}
use mathlib.Core.List.{append_assoc, append-nil, map}

-- The calls that concern the queue: of the user, for a received response, of the link, of the user.
pub data Call : Type 0 where
  command : ℕ → List ℕ → Call
  response : ℕ → Call
  link_info : AshInfo → Call
  change_mode : Mode → Call

abbrev pub perform : Call → EzspDongle → Option EzspDongle
perform (command cmd payload) d = send_command cmd payload d
perform (response cmd) d = handle_response cmd d
perform (link_info i) d = ash_cb_info i d
perform (change_mode m) d = some (set_mode m d)

abbrev pub perform_all : List Call → EzspDongle → Option EzspDongle
perform_all [] d = some d
perform_all (c ∷ cs) d = elim (perform c d) [ none ↦ none | some d' ↦ perform_all cs d' ]

-- The queue alone.
abbrev pub fifo : Call → List Msg → List Msg
fifo (command cmd payload) q = q ++ (record { cmd = cmd; payload = payload } ∷ [])
fifo (response cmd) [] = []
fifo (response cmd) (m ∷ q) = if m.cmd == cmd then q else m ∷ q
fifo (link_info i) q = q
fifo (change_mode m) q = q

abbrev pub fifo_all : List Call → List Msg → List Msg
fifo_all [] q = q
fifo_all (c ∷ cs) q = fifo_all cs (fifo c q)

abbrev pub IsShort : Call → Type 0
IsShort (command cmd payload) = length payload ≤ 250
IsShort _ = Unit

-- The call, if it ends, leaves this queue.
abbrev pub HasQueue : List Msg → Option EzspDongle → Type 0
HasQueue q none = Unit
HasQueue q (some d) = d.sending_msg_queue ≡ q

map-HasQueue :
    (q : List Msg) (o : Option (AshDriver × Bool)) (f : AshDriver × Bool → EzspDongle)
    → ((a : AshDriver × Bool) → (f a).sending_msg_queue ≡ q)
    → HasQueue q (Option.map f o)
map-HasQueue q none f h = tt
map-HasQueue q (some a) f h = h a

send_front-queue : (m : Msg) (d : EzspDongle) → HasQueue d.sending_msg_queue (send_front m d)
unfolding send_front
send_front-queue m d =
    map-HasQueue d.sending_msg_queue
      (send_data_frame d.ash (ezsp_message d.version d.ezsp_seq_num m)) _ (λ a. refl)

send_first-queue :
    (q : List Msg) (d : EzspDongle)
    → HasQueue d.sending_msg_queue (elim q [ [] ↦ some d | msg ∷ rest ↦ send_front msg d ])
send_first-queue [] d = refl
send_first-queue (m ∷ ms) d = send_front-queue m d

send_next_msg-queue : (d : EzspDongle) → HasQueue d.sending_msg_queue (send_next_msg d)
unfolding send_next_msg
send_next_msg-queue d = ground (arith, send_first-queue d.sending_msg_queue d)

response-queue :
    (cmd : ℕ) (q : List Msg) (d : EzspDongle)
    → d.sending_msg_queue ≡ q
    → HasQueue (fifo (response cmd) q) (elim q [
      | [] ↦ some d
      | msg ∷ rest ↦
          if msg.cmd == cmd
          then send_next_msg (record d { sending_msg_queue = rest; wait_rsp = false })
          else some d
    ])
response-queue cmd [] d e = e
response-queue cmd (m ∷ ms) d e =
    ground (arith, send_next_msg-queue (record d { sending_msg_queue = ms; wait_rsp = false }))

reset_failed-queue : (d : EzspDongle) → (reset_failed d).sending_msg_queue ≡ d.sending_msg_queue
unfolding reset_failed
reset_failed-queue d = ground (
  arith,
  set_mode-core bootloader_firmware_upgrade d,
  set_mode-core bootloader_exit_to_ezsp_ncp d,
)

perform-queue : (c : Call) (d : EzspDongle) → HasQueue (fifo c d.sending_msg_queue) (perform c d)
unfolding send_command handle_response ash_cb_info
perform-queue (command cmd payload) d = send_next_msg-queue (record d {
  sending_msg_queue = d.sending_msg_queue ++ (record { cmd = cmd; payload = payload } ∷ []);
})
perform-queue (response cmd) d = response-queue cmd d.sending_msg_queue d refl
perform-queue (link_info ash_state_connected) d = refl
perform-queue (link_info ash_state_disconnected) d = refl
perform-queue (link_info ash_nack) d = send_next_msg-queue (record d { wait_rsp = false })
perform-queue (link_info ash_reset_failed) d = reset_failed-queue d
perform-queue (link_info ash_ack) d = refl
perform-queue (change_mode m) d = let (ec, es, ew, eq) = set_mode-core m d in eq

perform-IsWell : (c : Call) (d : EzspDongle) → IsShort c → IsWell d → IsKept (perform c d)
perform-IsWell (command cmd payload) d h w = send_command-IsWell cmd payload d h w
perform-IsWell (response cmd) d h w = handle_response-IsWell cmd d w
perform-IsWell (link_info i) d h w = ash_cb_info-IsWell i d w
perform-IsWell (change_mode m) d h w = set_mode-IsWell m d w

-- The calls all end, in a state with the invariant and this queue.
abbrev pub EndsWith : List Msg → Option EzspDongle → Type 0
EndsWith q none = ⊥
EndsWith q (some d) = IsWell d × (d.sending_msg_queue ≡ q)

rest-EndsWith :
    (cs : List Call) (q : List Msg) (o : Option EzspDongle)
    → ((d : EzspDongle) → IsWell d → EndsWith (fifo_all cs d.sending_msg_queue) (perform_all cs d))
    → IsKept o
    → HasQueue q o
    → EndsWith (fifo_all cs q) (elim o [ none ↦ none | some d ↦ perform_all cs d ])
rest-EndsWith cs q none later k h = k
rest-EndsWith cs q (some d) later k h =
    subst (λ q. EndsWith (fifo_all cs q) (perform_all cs d)) h (later d k)

-- Any sequence of commands with payloads of at most 250 bytes, responses, calls of the link and
-- changes of the mode ends, keeps the invariant and leaves the queue that a first-in-first-out queue
-- has on which a response takes off the front if it is to that command, and nothing else does.
pub perform_all-fifo :
    (cs : List Call) (d : EzspDongle)
    → All IsShort cs
    → IsWell d
    → EndsWith (fifo_all cs d.sending_msg_queue) (perform_all cs d)
perform_all-fifo [] d hs w = (w, refl)
perform_all-fifo (c ∷ cs) d hs w =
    rest-EndsWith cs (fifo c d.sending_msg_queue) (perform c d)
      (λ d' w'. perform_all-fifo cs d' hs.1 w') (perform-IsWell c d hs.0 w) (perform-queue c d)

abbrev pub as_command : Msg → Call
as_command m = command m.cmd m.payload

abbrev with_queue : List Msg → EzspDongle → EzspDongle
with_queue q d = record d { sending_msg_queue = q }

send_next_msg-waiting : (d : EzspDongle) → d.wait_rsp ≡ true → send_next_msg d ≡ some d
unfolding send_next_msg
send_next_msg-waiting d h = ground arith

-- While a response is awaited, any number of commands is only queued: nothing is written and nothing
-- else of the state changes.
pub perform_all-waiting :
    (msgs : List Msg) (d : EzspDongle)
    → d.wait_rsp ≡ true
    → perform_all (map as_command msgs) d
      ≡ some (record d { sending_msg_queue = d.sending_msg_queue ++ msgs })
unfolding send_command
perform_all-waiting [] d h = ap (λ q. some (with_queue q d)) (sym (append-nil d.sending_msg_queue))
perform_all-waiting (m ∷ msgs) d h =
    let d' = with_queue (d.sending_msg_queue ++ (m ∷ [])) d in
    ap (λ o. elim o [ none ↦ none | some d ↦ perform_all (map as_command msgs) d ])
      (send_next_msg-waiting d' h)
    ∙ perform_all-waiting msgs d' h
    ∙ ap (λ q. some (with_queue q d)) (append_assoc d.sending_msg_queue (m ∷ []) msgs)

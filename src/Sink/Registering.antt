-- ===== src/Sink/Registering.antt =====
-- How CGpSink (src/ezsp/zigbee-tools/green-power-sink.cpp) registers a list of devices, one answer of
-- the adapter after the other.
use libezsp.Common.{ℕ, ◌≡◌, ◌≢◌, refl, arith, ◌∙◌, ap, replicate}
use libezsp.Common.{true, false, List, [], ◌∷◌, ◌++◌, none, some, All}
use libezsp.Commissioning.{Aes}
use libezsp.DeviceDb.{GpDevice}
use libezsp.Structs.SinkEntry.{SinkTableEntry, read_sink_table_entry}
use libezsp.Structs.Pairing.{entry_param}
use libezsp.Effects.{Effect, Ran, state_of, effects_of, and_then}
use libezsp.Effects.{sink_ready, sink_com_offline_in_progress}
use libezsp.EzspEnum.{ember_success}
use libezsp.Sink.{GpSink, register_gpds, set_sink_state, gp_sink_get_entry}
use libezsp.Sink.{gp_sink_set_entry, gp_proxy_table_process_gp_pairing}
use libezsp.Sink.{gp_sink_table_find_or_allocate_entry}
use libezsp.Sink.Answers.{handle_find_or_allocate_entry, handle_sink_table_get_entry}
use libezsp.Sink.Answers.{handle_sink_table_set_entry, handle_process_gp_pairing, register_next}
use libezsp.Sink.Answers.{registered_entry, entry_found, entry_set, index_allocated}

-- A device to register, with what the adapter answers for it: the index of its entry in the sink
-- table, and the entry that is there, as bytes and as they are read.
pub record Registration : Type 0 where
  pub device : GpDevice
  pub index : ℕ
  pub raw : List ℕ
  pub entry : SinkTableEntry

abbrev pub IsAllocated : Registration → Type 0
IsAllocated r = (r.index ≢ 0xff) × (read_sink_table_entry r.raw ≡ some r.entry)

abbrev pub devices_of : List Registration → List GpDevice
devices_of [] = []
devices_of (r ∷ rs) = r.device ∷ devices_of rs

-- A handler, after the effects of what came before.
abbrev pub then_handle : (GpSink → Ran GpSink) → GpSink × List Effect → GpSink × List Effect
then_handle f (s, es) = (state_of (f s), es ++ effects_of (f s))

-- The sink gets the four answers for one device.
unfoldable pub answer_registration : Aes → Registration → GpSink → GpSink × List Effect
unfolding handle_find_or_allocate_entry handle_sink_table_get_entry handle_sink_table_set_entry
    handle_process_gp_pairing
answer_registration aes r s =
    and_then
      (then_handle (handle_sink_table_set_entry (ember_success ∷ [])) (
        then_handle (handle_sink_table_get_entry aes (ember_success ∷ r.raw))
          (then_handle (handle_find_or_allocate_entry (r.index ∷ [])) (s, []))))
      (handle_process_gp_pairing (ember_success ∷ []))

unfoldable pub answer_registrations : Aes → List Registration → GpSink → GpSink × List Effect
answer_registrations aes [] s = (s, [])
answer_registrations aes (r ∷ rs) s =
    and_then (answer_registration aes r s) (answer_registrations aes rs)

-- The entry that is written for a device.
abbrev pub written_entry : Registration → SinkTableEntry
written_entry r = registered_entry (r.device ∷ []) r.entry

abbrev pub next_allocation : List GpDevice → List Effect
next_allocation [] = []
next_allocation (g ∷ gs) = gp_sink_table_find_or_allocate_entry g.source_id ∷ []

-- What is sent for one device: its entry is read, written with the device's data and paired.
abbrev pub registration_commands : Registration → List GpDevice → List Effect
registration_commands r gs =
    gp_sink_get_entry r.index
    ∷ gp_sink_set_entry r.index (written_entry r)
    ∷ gp_proxy_table_process_gp_pairing (entry_param (written_entry r) true false 0 (replicate 8 0))
    ∷ next_allocation gs

abbrev pub registrations_commands : List Registration → List Effect
registrations_commands [] = []
registrations_commands (r ∷ rs) =
    registration_commands r (devices_of rs) ++ registrations_commands rs

abbrev pub last_registration : Registration → List Registration → Registration
last_registration r [] = r
last_registration r (r' ∷ rs) = last_registration r' rs

-- In the middle of a registration, and after it, without a state callback.
abbrev registering : GpSink → List GpDevice → GpSink
registering s gs = record s {
  sink_state = sink_com_offline_in_progress;
  state_callback = none;
  gpds_to_register = gs;
}

abbrev pub registered : GpSink → Registration → GpSink
registered s r = record s {
  sink_state = sink_ready;
  state_callback = none;
  gpds_to_register = [];
  sink_table_index = r.index;
  sink_table_entry = written_entry r;
}

abbrev entered : GpSink → Registration → GpSink
entered s r = record s { sink_table_index = r.index; sink_table_entry = written_entry r }

registration_last :
    (aes : Aes) (r : Registration) (s : GpSink)
    → IsAllocated r
    → answer_registration aes r (registering s (r.device ∷ []))
      ≡ (registered s r, registration_commands r [])
unfolding answer_registration index_allocated entry_found entry_set register_next set_sink_state
    registered_entry
registration_last aes r s (allocated, is_read) = ground arith

registration_next :
    (aes : Aes) (r : Registration) (g : GpDevice) (gs : List GpDevice) (s : GpSink)
    → IsAllocated r
    → answer_registration aes r (registering s (r.device ∷ g ∷ gs))
      ≡ (registering (entered s r) (g ∷ gs), registration_commands r (g ∷ gs))
unfolding answer_registration index_allocated entry_found entry_set register_next registered_entry
registration_next aes r g gs s (allocated, is_read) = ground arith

answer_registrations_lem :
    (aes : Aes) (r : Registration) (rs : List Registration) (s : GpSink)
    → All IsAllocated (r ∷ rs)
    → answer_registrations aes (r ∷ rs) (registering s (devices_of (r ∷ rs)))
      ≡ (registered s (last_registration r rs), registrations_commands (r ∷ rs))
unfolding answer_registrations
answer_registrations_lem aes r [] s (h, hs) =
    ap (λ p. and_then p (answer_registrations aes [])) (registration_last aes r s h)
answer_registrations_lem aes r (r' ∷ rs) s (h, hs) =
    ap (λ p. and_then p (answer_registrations aes (r' ∷ rs)))
      (registration_next aes r r'.device (devices_of rs) s h)
    ∙ ap (λ q. (q.0, registration_commands r (devices_of (r' ∷ rs)) ++ q.1))
        (answer_registrations_lem aes r' rs (entered s r) hs)

-- A request to register devices, at least one of them, that a sink in READY without a state callback
-- gets is accepted. Where the adapter allocates an entry for each device, and sends entries that can
-- be read, its four answers for each device make the sink send, device by device, exactly the
-- commands that read the entry, write it with the device's data and pair it, and ask for the next
-- device's entry; after the last device the sink is in READY again and has none to register.
pub register_gpds-answer_registrations :
    (aes : Aes) (r : Registration) (rs : List Registration) (s : GpSink)
    → s.sink_state ≡ sink_ready
    → s.state_callback ≡ none
    → All IsAllocated (r ∷ rs)
    → let (asked, es, accepted) = register_gpds (devices_of (r ∷ rs)) s in
      (accepted ≡ true)
      × (es ≡ gp_sink_table_find_or_allocate_entry r.device.source_id ∷ [])
      × (answer_registrations aes (r ∷ rs) asked
          ≡ (registered s (last_registration r rs), registrations_commands (r ∷ rs)))
unfolding register_gpds set_sink_state
register_gpds-answer_registrations aes r rs s is_ready quiet allocated =
    rw (is_ready, quiet) (refl, refl, answer_registrations_lem aes r rs s allocated)

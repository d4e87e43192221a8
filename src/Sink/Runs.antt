-- ===== src/Sink/Runs.antt =====
-- What CGpSink (src/ezsp/zigbee-tools/green-power-sink.cpp) does with a list of devices, one answer of
-- the adapter after the other.
use libezsp.Common.{ℕ, ◌≡◌, refl, arith, if◌then◌else◌, ◌∙◌, ap}
use libezsp.Common.{true, List, [], ◌∷◌, ◌++◌, none, zero, suc, ◌!=◌}
use libezsp.Structs.Pairing.{removal_param}
use libezsp.Effects.{Effect, state_of, effects_of, and_then}
use libezsp.Effects.{sink_ready, sink_remove_in_progress, sink_clear_all}
use libezsp.Sink.{GpSink, remove_gpds, set_sink_state, gp_sink_table_lookup}
use libezsp.Sink.{gp_sink_table_remove_entry, gp_proxy_table_lookup}
use libezsp.Sink.{gp_proxy_table_process_gp_pairing}
use libezsp.Sink.Answers.{handle_sink_table_lookup, handle_proxy_table_lookup, proxy_looked_up}
use libezsp.Sink.Answers.{remove_next, handle_process_gp_pairing}

-- A device to remove, with what the adapter answers for it: its index in the sink table and in the
-- proxy table, 0xff where it is in none.
pub record Removal : Type 0 where
  pub source_id : ℕ
  pub sink_index : ℕ
  pub proxy_index : ℕ

abbrev pub ids_of : List Removal → List ℕ
ids_of [] = []
ids_of (r ∷ rs) = r.source_id ∷ ids_of rs

-- The sink gets the two answers for one device.
unfoldable pub answer_device : Removal → GpSink → GpSink × List Effect
unfolding handle_sink_table_lookup handle_proxy_table_lookup
answer_device r s =
    let first = handle_sink_table_lookup (r.sink_index ∷ []) s in
    let second = handle_proxy_table_lookup (r.proxy_index ∷ []) (state_of first) in
    (state_of second, effects_of first ++ effects_of second)

unfoldable pub answer_devices : List Removal → GpSink → GpSink × List Effect
answer_devices [] s = (s, [])
answer_devices (r ∷ rs) s = and_then (answer_device r s) (answer_devices rs)

abbrev pub next_lookup : List ℕ → List Effect
next_lookup [] = []
next_lookup (g ∷ gs) = gp_sink_table_lookup g ∷ []

-- What is sent for one device, which is taken out of the tables that it has an index in.
abbrev pub removal_commands : Removal → List ℕ → List Effect
removal_commands r gs =
    ((if r.sink_index != 0xff then gp_sink_table_remove_entry r.sink_index ∷ [] else [])
      ++ (gp_proxy_table_lookup r.source_id ∷ []))
    ++ ((if r.proxy_index != 0xff
          then gp_proxy_table_process_gp_pairing (removal_param r.source_id) ∷ []
          else [])
        ++ next_lookup gs)

abbrev pub all_removal_commands : List Removal → List Effect
all_removal_commands [] = []
all_removal_commands (r ∷ rs) = removal_commands r (ids_of rs) ++ all_removal_commands rs

-- In the middle of a removal, without a state callback.
abbrev removing : GpSink → List ℕ → GpSink
removing s gs = record s {
  sink_state = sink_remove_in_progress;
  state_callback = none;
  gpds_to_remove = gs;
}

-- After the removal.
abbrev removed : GpSink → GpSink
removed s = record s { sink_state = sink_ready; state_callback = none; gpds_to_remove = [] }

answer_last :
    (r : Removal) (s : GpSink)
    → answer_device r (removing s (r.source_id ∷ [])) ≡ (removed s, removal_commands r [])
unfolding answer_device proxy_looked_up remove_next set_sink_state
answer_last r s = ground arith

answer_next :
    (r : Removal) (g : ℕ) (gs : List ℕ) (s : GpSink)
    → answer_device r (removing s (r.source_id ∷ g ∷ gs))
      ≡ (removing s (g ∷ gs), removal_commands r (g ∷ gs))
unfolding answer_device proxy_looked_up remove_next
answer_next r g gs s = ground arith

answer_devices_lem :
    (r : Removal) (rs : List Removal) (s : GpSink)
    → answer_devices (r ∷ rs) (removing s (ids_of (r ∷ rs)))
      ≡ (removed s, all_removal_commands (r ∷ rs))
unfolding answer_devices
answer_devices_lem r [] s = ap (λ p. and_then p (answer_devices [])) (answer_last r s)
answer_devices_lem r (r' ∷ rs) s =
    ap (λ p. and_then p (answer_devices (r' ∷ rs))) (answer_next r r'.source_id (ids_of rs) s)
    ∙ ap (λ q. (q.0, removal_commands r (ids_of (r' ∷ rs)) ++ q.1)) (answer_devices_lem r' rs s)

-- A request to remove devices, at least one of them, that a sink in READY without a state callback
-- gets is accepted. The adapter's two answers for each device then make it send, device by device,
-- exactly the commands that take the device out of the tables that it is in and look the next one up;
-- after the last device the sink is in READY again and has none to remove.
pub remove_gpds-answer_devices :
    (r : Removal) (rs : List Removal) (s : GpSink)
    → s.sink_state ≡ sink_ready
    → s.state_callback ≡ none
    → let (asked, es, accepted) = remove_gpds (ids_of (r ∷ rs)) s in
      (accepted ≡ true)
      × (es ≡ gp_sink_table_lookup r.source_id ∷ [])
      × (answer_devices (r ∷ rs) asked
          ≡ (record s { gpds_to_remove = [] }, all_removal_commands (r ∷ rs)))
unfolding remove_gpds set_sink_state
remove_gpds-answer_devices r rs s is_ready quiet =
    rw (is_ready, quiet) (refl, refl, answer_devices_lem r rs s)

-- The sink is told that an entry of the proxy table is removed.
unfoldable pub entries_cleared : ℕ → GpSink → GpSink × List Effect
unfolding handle_process_gp_pairing
entries_cleared zero s = (s, [])
entries_cleared (suc n) s = and_then (handle_process_gp_pairing (0x01 ∷ []) s) (entries_cleared n)

abbrev clearing : GpSink → ℕ → GpSink
clearing s i = record s {
  sink_state = sink_clear_all;
  state_callback = none;
  proxy_table_index = i;
}

-- A sink in READY without a state callback.
abbrev idle : GpSink → ℕ → GpSink
idle s i = record s { sink_state = sink_ready; state_callback = none; proxy_table_index = i }

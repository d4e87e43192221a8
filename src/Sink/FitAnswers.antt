-- ===== src/Sink/FitAnswers.antt =====
-- The commands that CGpSink::handleEzspRxMessage (src/ezsp/zigbee-tools/green-power-sink.cpp) sends
-- are short enough for the dongle and never ask for the EZSP version.
use libezsp.Common.{ℕ, ◌≤◌, arith, true, false, List, [], ◌∷◌}
use libezsp.Common.{length, length-append, All, Option, none, some, drop}
use libezsp.Common.{replicate}
use libezsp.DeviceDb.{GpDevice}
use libezsp.GpStruct.{GpAddress, get_gp_address}
use libezsp.Structs.{bytes_at}
use libezsp.Structs.SinkEntry.{SinkTableEntry, get_sink_table_entry_raw, read_sink_table_entry}
use libezsp.Structs.Pairing.{PairingParam, get_pairing_param, removal_param, entry_param}
use libezsp.Structs.Pairing.{read_proxy_entry_address}
use libezsp.Structs.SinkEntry.{address_source_id}
use libezsp.Commissioning.{Aes, CommissioningPayload, read_commissioning}
use libezsp.Commissioning.Length.{Holds, length-read_commissioning}
use libezsp.Effects.{ran, thrown, sink_ready}
use libezsp.EzspEnum.{ezsp_gp_sink_table_lookup, ezsp_gp_sink_table_find_or_allocate_entry}
use libezsp.EzspEnum.{ezsp_gp_proxy_table_lookup}
use libezsp.Sink.{GpSink, gp_proxy_table_process_gp_pairing}
use libezsp.Sink.{gp_sink_set_entry}
use libezsp.Sink.Fits.{IsPlain, IsKeyed, KeysFit, IsFit, IsFitRan}
use libezsp.Sink.Fits.{set_sink_state-IsFit, source-IsPlain, close_session-IsFit}
use libezsp.Sink.Answers.{handle_get_network_parameters, handle_find_or_allocate_entry}
use libezsp.Sink.Answers.{handle_sink_table_lookup, handle_sink_table_get_entry, entry_found}
use libezsp.Sink.Answers.{handle_sink_table_set_entry, handle_proxy_table_lookup, entry_set}
use libezsp.Sink.Answers.{handle_proxy_table_get_entry, handle_process_gp_pairing}
use libezsp.Sink.Answers.{index_allocated, lookup_in_proxy_table, registered_entry, store_entry}
use libezsp.Sink.Answers.{commissioned_entry, remove_next, register_next, proxy_looked_up}
use libezsp.Sink.Answers.{proxy_entry_found}

module _ (s : GpSink) (k : KeysFit s) where
  pub get_network_parameters-IsFit : (msg : List ℕ) → IsFitRan (handle_get_network_parameters msg s)
  unfolding handle_get_network_parameters
  get_network_parameters-IsFit msg = ground arith

  pub find_or_allocate-IsFit : (msg : List ℕ) → IsFitRan (handle_find_or_allocate_entry msg s)
  unfolding handle_find_or_allocate_entry index_allocated
  find_or_allocate-IsFit [] = ground arith
  find_or_allocate-IsFit (index ∷ rest) = ground (
    arith,
    set_sink_state-IsFit sink_ready (record s { sink_table_index = index })
        (record { entry_key = k.entry_key; register_keys = k.register_keys }),
  )

  lookup-IsPlain : (ids : List ℕ) → All IsPlain (lookup_in_proxy_table ids)
  lookup-IsPlain [] = tt
  lookup-IsPlain (g ∷ gs) = (source-IsPlain ezsp_gp_proxy_table_lookup g (omega arith), tt)

  pub sink_table_lookup-IsFit : (msg : List ℕ) → IsFitRan (handle_sink_table_lookup msg s)
  unfolding handle_sink_table_lookup
  sink_table_lookup-IsFit [] = ground arith
  sink_table_lookup-IsFit (index ∷ rest) = ground (arith, lookup-IsPlain s.gpds_to_remove)

  length-get_pairing_param :
      (p : PairingParam)
      → length p.sink_ieee_address ≤ 8
      → length p.gpd_key ≤ 16
      → IsPlain (gp_proxy_table_process_gp_pairing p)
  unfolding get_pairing_param get_gp_address
  length-get_pairing_param p he hk = (omega arith, simp length-append (omega arith))

  length-gp_sink_set_entry :
      (index : ℕ) (e : SinkTableEntry) → length e.gpd_key ≤ 16 → IsPlain (gp_sink_set_entry index e)
  unfolding get_sink_table_entry_raw get_gp_address
  length-gp_sink_set_entry index e h = (omega arith, simp length-append (omega arith))

  store_entry-IsFit : (e : SinkTableEntry) → length e.gpd_key ≤ 16 → IsFitRan (store_entry e s)
  store_entry-IsFit e h = (
    record { entry_key = h; register_keys = k.register_keys },
    (length-gp_sink_set_entry s.sink_table_index e h, tt),
  )

  length-registered_entry :
      (gs : List GpDevice) (e : SinkTableEntry)
      → All IsKeyed gs
      → length e.gpd_key ≤ 16
      → length (registered_entry gs e).gpd_key ≤ 16
  unfolding registered_entry
  length-registered_entry [] e keyed h = h
  length-registered_entry (g ∷ gs) e keyed h = keyed.0

  commissioned-IsFit :
      (o : Option CommissioningPayload) (i : ℕ) (e : SinkTableEntry)
      → Holds (λ p. length p.key ≤ 16) o
      → IsFitRan (elim o [ none ↦ thrown s [] | some p ↦ store_entry (commissioned_entry p i e) s ])
  unfolding commissioned_entry
  commissioned-IsFit none i e h = (k, tt)
  commissioned-IsFit (some p) i e h = store_entry-IsFit (commissioned_entry p i e) h

  entry_found-IsFit :
      (aes : Aes) (e : SinkTableEntry) → length e.gpd_key ≤ 16 → IsFitRan (entry_found aes e s)
  unfolding entry_found
  entry_found-IsFit aes e h =
      let f = s.gpf_comm_frame in
      ground (
        arith,
        commissioned-IsFit (read_commissioning aes f.payload f.source_id) f.source_id e
            (length-read_commissioning aes f.payload f.source_id),
        store_entry-IsFit (registered_entry s.gpds_to_register e)
            (length-registered_entry s.gpds_to_register e k.register_keys h),
      )

  found_entry-IsFit :
      (aes : Aes) (o : Option SinkTableEntry)
      → Holds (λ e. length e.gpd_key ≤ 16) o
      → IsFitRan (elim o [ none ↦ thrown s [] | some e ↦ entry_found aes e s ])
  found_entry-IsFit aes none h = (k, tt)
  found_entry-IsFit aes (some e) h = entry_found-IsFit aes e h

  length-read_sink_table_entry :
      (raw : List ℕ) → Holds (λ e. length e.gpd_key ≤ 16) (read_sink_table_entry raw)
  unfolding read_sink_table_entry bytes_at
  length-read_sink_table_entry raw = ground arith

  pub sink_table_get_entry-IsFit :
      (aes : Aes) (msg : List ℕ) → IsFitRan (handle_sink_table_get_entry aes msg s)
  unfolding handle_sink_table_get_entry
  sink_table_get_entry-IsFit aes msg =
      found_entry-IsFit aes (read_sink_table_entry (drop 1 msg))
        (length-read_sink_table_entry (drop 1 msg))

  entry_set-IsFit : (status : ℕ) → IsFit (entry_set status s)
  unfolding entry_set entry_param
  entry_set-IsFit status = ground (
    arith,
    set_sink_state-IsFit sink_ready s k,
    length-get_pairing_param (entry_param s.sink_table_entry true false 0 (replicate 8 0))
        (omega arith) k.entry_key,
  )

  pub sink_table_set_entry-IsFit : (msg : List ℕ) → IsFitRan (handle_sink_table_set_entry msg s)
  unfolding handle_sink_table_set_entry
  sink_table_set_entry-IsFit [] = ground arith
  sink_table_set_entry-IsFit (status ∷ rest) = ground (arith, entry_set-IsFit status)

  remove_next-IsFit : (ids : List ℕ) → IsFit (remove_next ids s)
  unfolding remove_next
  remove_next-IsFit [] =
      set_sink_state-IsFit sink_ready (record s { gpds_to_remove = [] })
        (record { entry_key = k.entry_key; register_keys = k.register_keys })
  remove_next-IsFit (g ∷ gs) = (
    record { entry_key = k.entry_key; register_keys = k.register_keys },
    (source-IsPlain ezsp_gp_sink_table_lookup g (omega arith), tt),
  )

  removal-IsPlain : (g : ℕ) → IsPlain (gp_proxy_table_process_gp_pairing (removal_param g))
  unfolding removal_param
  removal-IsPlain g = length-get_pairing_param (removal_param g) (omega arith) (omega arith)

  proxy_looked_up-IsFit : (index : ℕ) (ids : List ℕ) → IsFit (proxy_looked_up index ids s)
  unfolding proxy_looked_up
  proxy_looked_up-IsFit index [] = remove_next-IsFit []
  proxy_looked_up-IsFit index (g ∷ gs) = ground (arith, removal-IsPlain g, remove_next-IsFit gs)

  pub proxy_table_lookup-IsFit : (msg : List ℕ) → IsFitRan (handle_proxy_table_lookup msg s)
  unfolding handle_proxy_table_lookup
  proxy_table_lookup-IsFit [] = ground arith
  proxy_table_lookup-IsFit (index ∷ rest) =
      ground (arith, proxy_looked_up-IsFit index s.gpds_to_remove)

  proxy_entry-IsFit :
      (o : Option GpAddress)
      → IsFitRan (elim o [
        | none ↦ thrown s []
        | some g ↦
            ran s (gp_proxy_table_process_gp_pairing (removal_param (address_source_id g)) ∷ [])
      ])
  proxy_entry-IsFit none = (k, tt)
  proxy_entry-IsFit (some g) = (k, (removal-IsPlain (address_source_id g), tt))

  pub proxy_table_get_entry-IsFit : (msg : List ℕ) → IsFitRan (handle_proxy_table_get_entry msg s)
  unfolding handle_proxy_table_get_entry proxy_entry_found
  proxy_table_get_entry-IsFit [] = ground arith
  proxy_table_get_entry-IsFit (status ∷ rest) = ground (
    arith,
    proxy_entry-IsFit (read_proxy_entry_address rest),
    set_sink_state-IsFit sink_ready s k,
  )

  register_next-IsFit : (gs : List GpDevice) → All IsKeyed gs → IsFit (register_next gs s)
  unfolding register_next
  register_next-IsFit [] keyed =
      set_sink_state-IsFit sink_ready (record s { gpds_to_register = [] })
        (record { entry_key = k.entry_key; register_keys = tt })
  register_next-IsFit (g ∷ gs) keyed = (
    record { entry_key = k.entry_key; register_keys = keyed },
    (source-IsPlain ezsp_gp_sink_table_find_or_allocate_entry g.source_id (omega arith), tt),
  )

  drop_first-IsKeyed : (gs : List GpDevice) → All IsKeyed gs → All IsKeyed (drop 1 gs)
  drop_first-IsKeyed [] keyed = tt
  drop_first-IsKeyed (g ∷ gs) keyed = keyed.1

  pub process_gp_pairing-IsFit : (msg : List ℕ) → IsFit (handle_process_gp_pairing msg s)
  unfolding handle_process_gp_pairing
  process_gp_pairing-IsFit msg = ground (
    arith,
    close_session-IsFit s k,
    register_next-IsFit (drop 1 s.gpds_to_register)
        (drop_first-IsKeyed s.gpds_to_register k.register_keys),
  )

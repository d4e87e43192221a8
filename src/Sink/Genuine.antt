-- ===== src/Sink/Genuine.antt =====
-- Which frames the sink hands on with the build option USE_BUILTIN_MIC_PROCESSING
-- (src/ezsp/zigbee-tools/green-power-sink.cpp), and what its requests do to the database.
use libezsp.Common.{ℕ, ◌≡◌, refl, arith, Bool, true, List, [], ◌∷◌, ◌++◌, Option, none, some}
use libezsp.Common.{All, All-append, Bool-cases, inl, inr, if◌then◌else◌, sym, u8, ◌+◌}
use mathlib.Core.Path.{subst}
use mathlib.Core.Option.{none-ne-some}
use libezsp.DeviceDb.{GpDevice, GpDeviceDb, get_key_for_source_id, set_db, insert_all}
use libezsp.DeviceDb.{new_gp_device_db, find}
use libezsp.GpFrame.{GpFrame, read_gp_frame}
use libezsp.GpFrame.Mic.{Cipher, validate_mic}
use libezsp.Effects.{sends, stack_version_fetched, ezsp_version_fetched, xncp_fetched, mode_set}
use libezsp.Effects.{state_told, sink_state_told, child_found, key_told, energy_scan_told}
use libezsp.Effects.{active_scan_told, gpd_id_told}
use libezsp.Effects.{Effect, gp_frame_told, Ran, ran, thrown, effects_of, KeyStatus, valid, invalid}
use libezsp.Effects.{SinkState, sink_ready, sink_com_in_progress}
use libezsp.Sink.{GpSink, set_sink_state, told_state, gp_send}
use libezsp.Sink.Incoming.{start_commissioning, answer_channel_request, handle_incoming_no_security}
use libezsp.Sink.Incoming.{
  switch_channel, handle_incoming_security, handle_by_key, after, told_frame,
}
use libezsp.Sink.Incoming.{told_gpd_id, send_channel}
use libezsp.Sink.Builtin.{
  CheckingSink, register_checked, remove_checked, remove_devices_in, checked_status,
}
use libezsp.Sink.Builtin.{
  status_by_key, told_known, checked_frame_received, checked_incoming_message,
}

-- A frame that is handed on has a key in the database, under which its code is right.
abbrev pub IsGenuine : Cipher → GpDeviceDb → Effect → Type 0
IsGenuine c db (gp_frame_told f) =
    (key : List ℕ) × (get_key_for_source_id f.source_id db ≡ some key)
    × (validate_mic c key f ≡ true)
IsGenuine c db _ = Unit

module _ (c : Cipher) (db : GpDeviceDb) where
  abbrev IsSafeRan : Ran GpSink → Type 0
  IsSafeRan r = All (IsGenuine c db) (effects_of r)

  told_state-IsGenuine :
      (f : Option (SinkState → Bool)) (st : SinkState) → All (IsGenuine c db) (told_state f st)
  told_state-IsGenuine none st = tt
  told_state-IsGenuine (some f) st = (tt, tt)

  start_commissioning-IsGenuine :
      (f : GpFrame) (s : GpSink) → All (IsGenuine c db) (start_commissioning f s).1
  unfolding start_commissioning set_sink_state
  start_commissioning-IsGenuine f s =
      ground (arith, told_state-IsGenuine s.state_callback sink_com_in_progress)

  send_channel-IsGenuine : (i t h : ℕ) (s : GpSink) → IsGenuine c db (send_channel i t h s)
  unfolding send_channel gp_send
  send_channel-IsGenuine i t h s = tt

  channel_request-IsGenuine :
      (f : GpFrame) (payload : List ℕ) (s : GpSink) (es : List Effect)
      → All (IsGenuine c db) es
      → IsSafeRan (answer_channel_request f payload (s, es))
  unfolding answer_channel_request
  channel_request-IsGenuine f [] s es ps = ground arith
  channel_request-IsGenuine f (b ∷ rest) s es ps = ground (
    arith,
    All-append (IsGenuine c db) es (send_channel f.source_id 2000 0 s ∷ []) ps
        (send_channel-IsGenuine f.source_id 2000 0 s, tt),
  )

  no_security-IsGenuine : (f : GpFrame) (s : GpSink) → IsSafeRan (handle_incoming_no_security f s)
  unfolding handle_incoming_no_security
  no_security-IsGenuine f s =
      let (s', es) = start_commissioning f s in
      channel_request-IsGenuine f f.payload s' es (start_commissioning-IsGenuine f s)

  switch_channel-IsGenuine :
      (f : GpFrame) (s : GpSink) → All (IsGenuine c db) (switch_channel f s).1
  unfolding switch_channel
  switch_channel-IsGenuine f s =
      ground
        (arith, send_channel-IsGenuine f.source_id 1000 (u8 (s.gpd_sent_last_handler_nb + 1)) s)

  told_frame-IsGenuine :
      (f : GpFrame) (s : GpSink)
      → IsGenuine c db (gp_frame_told f)
      → All (IsGenuine c db) (told_frame f s)
  told_frame-IsGenuine f s genuine = ground arith

  security-IsGenuine :
      (f : GpFrame) (s : GpSink)
      → IsGenuine c db (gp_frame_told f)
      → All (IsGenuine c db) (handle_incoming_security f s).1
  unfolding handle_incoming_security
  security-IsGenuine f s genuine =
      All-append (IsGenuine c db) (switch_channel f s).1 (told_frame f (switch_channel f s).0)
        (switch_channel-IsGenuine f s) (told_frame-IsGenuine f (switch_channel f s).0 genuine)

  by_key-IsGenuine :
      (f : GpFrame) (o : Option (List ℕ)) (s : GpSink)
      → get_key_for_source_id f.source_id db ≡ o
      → IsSafeRan (handle_by_key (status_by_key c f o) f s)
  by_key-IsGenuine f none s found = tt
  by_key-IsGenuine f (some key) s found = elim (Bool-cases (validate_mic c key f)) [
    | inl e ↦
        subst (λ b. IsSafeRan (handle_by_key (if b then valid else invalid) f s)) (sym e)
          (security-IsGenuine f s (key, found, e))
    | inr e ↦ subst (λ b. IsSafeRan (handle_by_key (if b then valid else invalid) f s)) (sym e) tt
  ]

  told_id-IsGenuine :
      (f : GpFrame) (st : KeyStatus) (s : GpSink) → All (IsGenuine c db) (told_gpd_id f st s)
  told_id-IsGenuine f st s = ground arith

  told_known-IsGenuine :
      (f : GpFrame) (st : KeyStatus) (b : CheckingSink) → All (IsGenuine c db) (told_known f st b)
  told_known-IsGenuine f st b = ground arith

  after-IsGenuine :
      (es : List Effect) (r : Ran GpSink)
      → All (IsGenuine c db) es
      → IsSafeRan r
      → IsSafeRan (after es r)
  after-IsGenuine es (ran s es') ps ps' = All-append (IsGenuine c db) es es' ps ps'
  after-IsGenuine es (thrown s es') ps ps' = All-append (IsGenuine c db) es es' ps ps'

frame-IsGenuine :
    (c : Cipher) (f : GpFrame) (b : CheckingSink)
    → IsSafeRan c b.gp_dev_db (checked_frame_received f (checked_status c f b.gp_dev_db) b)
unfolding checked_frame_received checked_status
frame-IsGenuine c f b =
    let st = checked_status c f b.gp_dev_db in
    after-IsGenuine c b.gp_dev_db (told_gpd_id f st b.sink ++ told_known f st b) _
      (All-append (IsGenuine c b.gp_dev_db) (told_gpd_id f st b.sink) (told_known f st b)
        (told_id-IsGenuine c b.gp_dev_db f st b.sink) (told_known-IsGenuine c b.gp_dev_db f st b))
      (ground (
        arith,
        no_security-IsGenuine c b.gp_dev_db f b.sink,
        by_key-IsGenuine c b.gp_dev_db f (get_key_for_source_id f.source_id b.gp_dev_db) b.sink
            refl,
      ))

read-IsGenuine :
    (c : Cipher) (o : Option GpFrame) (b : CheckingSink)
    → IsSafeRan c b.gp_dev_db (elim o [
      | none ↦ thrown b.sink []
      | some f ↦ checked_frame_received f (checked_status c f b.gp_dev_db) b
    ])
read-IsGenuine c none b = tt
read-IsGenuine c (some f) b = frame-IsGenuine c f b

-- With the built-in check, whatever message the sink receives, a frame that it hands on has a key in
-- the host's database, under which its message integrity code is right.
checked_incoming_message-IsGenuine :
    (c : Cipher) (msg : List ℕ) (b : CheckingSink)
    → All (IsGenuine c b.gp_dev_db) (effects_of (checked_incoming_message c msg b))
unfolding checked_incoming_message
checked_incoming_message-IsGenuine c msg b = read-IsGenuine c (read_gp_frame msg) b

abbrev pub IsNoFrame : Effect → Type 0
IsNoFrame (gp_frame_told f) = ⊥
IsNoFrame _ = Unit

no_frame : (c : Cipher) (e : Effect) → IsGenuine c [] e → IsNoFrame e
unfolding get_key_for_source_id find
no_frame c (gp_frame_told f) (key, found, e) = absurd (none-ne-some key found)
no_frame c (sends x y) p = tt
no_frame c (stack_version_fetched v) p = tt
no_frame c (ezsp_version_fetched v r t) p = tt
no_frame c (xncp_fetched x v) p = tt
no_frame c (mode_set d) p = tt
no_frame c (state_told t) p = tt
no_frame c (sink_state_told t) p = tt
no_frame c (child_found t e i) p = tt
no_frame c (key_told x y) p = tt
no_frame c (energy_scan_told r) p = tt
no_frame c (active_scan_told r) p = tt
no_frame c (gpd_id_told i k t) p = tt

no_frames : (c : Cipher) (es : List Effect) → All (IsGenuine c []) es → All IsNoFrame es
no_frames c [] ps = tt
no_frames c (e ∷ es) (p, ps) = (no_frame c e p, no_frames c es ps)

-- With the built-in check, the requests do not look at the list that they are given: from a sink in
-- READY with no device queued, a request to register devices empties the host's database, leaves no
-- device queued, and after it no message makes the sink hand on a frame; a request to remove devices
-- leaves the database as it was. Neither of them returns a value.
pub checked_requests_ignore_list :
    (g : GpDevice) (gs : List GpDevice) (i : ℕ) (ids : List ℕ) (b : CheckingSink)
    → b.sink.sink_state ≡ sink_ready
    → b.sink.gpds_to_register ≡ []
    → b.sink.gpds_to_remove ≡ []
    → let (added, es, answer) = register_checked (g ∷ gs) b in
      let (removed, es', answer') = remove_checked (i ∷ ids) b in
      (added.gp_dev_db ≡ [])
      × (added.sink.gpds_to_register ≡ [])
      × ((c : Cipher) (msg : List ℕ)
          → All IsNoFrame (effects_of (checked_incoming_message c msg added)))
      × (removed.gp_dev_db ≡ b.gp_dev_db)
      × (answer ≡ none)
      × (answer' ≡ none)
unfolding register_checked remove_checked set_db insert_all new_gp_device_db remove_devices_in
checked_requests_ignore_list g gs i ids b is_ready none_to_add none_to_remove =
    rw (is_ready, none_to_add, none_to_remove)
      (
        refl,
        refl,
        (λ c msg. no_frames c _ (checked_incoming_message-IsGenuine c msg _)),
        refl,
        refl,
        refl,
      )

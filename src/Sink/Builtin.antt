-- ===== src/Sink/Builtin.antt =====
-- CGpSink (src/ezsp/zigbee-tools/green-power-sink.cpp) as the build option USE_BUILTIN_MIC_PROCESSING
-- changes it: the keys of the devices are in a database of the host, which checks the frames itself.
use libezsp.Common.{
  ℕ, ◌==◌, if◌then◌else◌, Bool, true, false, List, [], ◌∷◌, ◌++◌, Option, none, some,
}
use libezsp.DeviceDb.{GpDevice, GpDeviceDb, set_db, remove_device, get_key_for_source_id}
use libezsp.DeviceDb.{is_source_id_in_db, new_gp_device_db}
use libezsp.GpFrame.{GpFrame, read_gp_frame, gpd_no_security}
use libezsp.GpFrame.Mic.{Cipher, validate_mic}
use libezsp.Effects.{Effect, gpd_id_told, Ran, thrown, KeyStatus, undefined, valid, invalid}
use libezsp.Effects.{and_then, sink_ready, sink_clear_all, sink_com_offline_in_progress}
use libezsp.Effects.{sink_remove_in_progress}
use libezsp.Sink.{GpSink, is_in, set_sink_state}
use libezsp.Sink.Incoming.{handle_incoming_no_security, handle_by_key, told_gpd_id, after}

pub record CheckingSink : Type 0 where
  pub sink : GpSink
  pub gp_dev_db : GpDeviceDb

-- The state and the effects; then what is returned, `none` where the function ends without a return.
abbrev pub Checked : Type 0
Checked = CheckingSink × List Effect × Option Bool

abbrev checked : GpDeviceDb → Option Bool → GpSink × List Effect → Checked
checked db answer (s, es) = (record { sink = s; gp_dev_db = db }, es, answer)

abbrev refused : CheckingSink → Checked
refused b = (b, [], some false)

-- The elements of a vector from the front on, which the list has last first.
abbrev pub from_front {ℓ} : {A : Type ℓ} → List A → List A
from_front [] = []
from_front (x ∷ xs) = from_front xs ++ (x ∷ [])

unfoldable pub clear_all_checked : CheckingSink → Checked
unfolding set_sink_state new_gp_device_db
clear_all_checked b =
    if is_in sink_ready b.sink
    then checked new_gp_device_db (some true)
        (and_then (set_sink_state sink_clear_all b.sink) (set_sink_state sink_ready))
    else refused b

-- The list that is given is swapped with the queue, and the database is set to what the queue held.
unfoldable pub register_checked : List GpDevice → CheckingSink → Checked
unfolding set_sink_state
register_checked gpd b =
    if is_in sink_ready b.sink
    then elim gpd [
      | [] ↦ refused b
      | g ∷ gs ↦ checked (set_db (from_front b.sink.gpds_to_register) b.gp_dev_db) none (
          and_then (set_sink_state sink_com_offline_in_progress b.sink)
            (λ s. set_sink_state sink_ready (record s { gpds_to_register = [] })))
    ]
    else refused b

unfoldable pub remove_devices_in : List ℕ → GpDeviceDb → GpDeviceDb
remove_devices_in [] db = db
remove_devices_in (i ∷ ids) db = remove_devices_in ids (remove_device i db).0

-- The list is swapped with the queue as well.
unfoldable pub remove_checked : List ℕ → CheckingSink → Checked
unfolding set_sink_state remove_devices_in
remove_checked gpd b =
    if is_in sink_ready b.sink
    then elim gpd [
      | [] ↦ refused b
      | g ∷ gs ↦ checked (remove_devices_in (from_front b.sink.gpds_to_remove) b.gp_dev_db) none (
          and_then (set_sink_state sink_remove_in_progress b.sink)
            (λ s. set_sink_state sink_ready (record s { gpds_to_remove = [] })))
    ]
    else refused b

-- The status of a frame, of the key that the database has for its source.
abbrev pub status_by_key : Cipher → GpFrame → Option (List ℕ) → KeyStatus
status_by_key c gpf none = undefined
status_by_key c gpf (some key) = if validate_mic c key gpf then valid else invalid

unfoldable pub checked_status : Cipher → GpFrame → GpDeviceDb → KeyStatus
checked_status c gpf db = status_by_key c gpf (get_key_for_source_id gpf.source_id db)

-- The second notice of a source ID, which tells whether the database has it.
abbrev pub told_known : GpFrame → KeyStatus → CheckingSink → List Effect
told_known gpf status b =
    if b.sink.has_observer
    then gpd_id_told gpf.source_id (is_source_id_in_db gpf.source_id b.gp_dev_db) status ∷ []
    else []

-- A frame never changes the database: what is returned is the rest of the sink.
unfoldable pub checked_frame_received : GpFrame → KeyStatus → CheckingSink → Ran GpSink
unfolding handle_incoming_no_security is_source_id_in_db
checked_frame_received gpf status b =
    after (told_gpd_id gpf status b.sink ++ told_known gpf status b) (
      if gpf.security == gpd_no_security
      then handle_incoming_no_security gpf b.sink
      else handle_by_key status gpf b.sink)

unfoldable pub checked_incoming_message : Cipher → List ℕ → CheckingSink → Ran GpSink
unfolding checked_frame_received checked_status
checked_incoming_message c i_msg_receive b = elim (read_gp_frame i_msg_receive) [
  | none ↦ thrown b.sink []
  | some gpf ↦ checked_frame_received gpf (checked_status c gpf b.gp_dev_db) b
]

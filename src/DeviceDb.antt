-- ===== src/DeviceDb.antt =====
-- src/ezsp/zigbee-tools/green-power-device-db.cpp: CGPDeviceDb, the keys of the known Green Power
-- devices by their source ID.
pub mod Lookup
use libezsp.Common.{
  ℕ, ◌==◌, if◌then◌else◌, not, Bool, true, false, List, [], ◌∷◌, Option, none, some,
}

pub record GpDevice : Type 0 where
  pub source_id : ℕ
  pub key : List ℕ

-- The std::map `gp_dev_list`, one entry for a source ID at most.
abbrev pub GpDeviceDb : Type 0
GpDeviceDb = List GpDevice

-- std::map::find.
unfoldable pub find : ℕ → GpDeviceDb → Option (List ℕ)
find i_source_id [] = none
find i_source_id (d ∷ db) =
    let rest = find i_source_id db in if d.source_id == i_source_id then some d.key else rest

-- std::map::erase of a key.
unfoldable pub erase : ℕ → GpDeviceDb → GpDeviceDb
erase i_source_id [] = []
erase i_source_id (d ∷ db) =
    let rest = erase i_source_id db in if d.source_id == i_source_id then rest else d ∷ rest

unfoldable pub new_gp_device_db : GpDeviceDb
new_gp_device_db = []

unfoldable pub is_source_id_in_db : ℕ → GpDeviceDb → Bool
is_source_id_in_db i_source_id db = elim (find i_source_id db) [ none ↦ false | some k ↦ true ]

-- std::map::insert does not replace an entry.
unfoldable pub insert_device : GpDevice → GpDeviceDb → GpDeviceDb
insert_device d db = elim (find d.source_id db) [ none ↦ d ∷ db | some k ↦ db ]

-- The database, and whether there was an entry.
unfoldable pub remove_device : ℕ → GpDeviceDb → GpDeviceDb × Bool
remove_device i_source_id db =
    (erase i_source_id db, elim (find i_source_id db) [ none ↦ false | some k ↦ true ])

unfoldable pub insert_all : List GpDevice → GpDeviceDb → GpDeviceDb
insert_all [] db = db
insert_all (d ∷ ds) db = insert_all ds (insert_device d db)

unfoldable pub set_db : List GpDevice → GpDeviceDb → GpDeviceDb
unfolding insert_all new_gp_device_db
set_db i_gp_devices_list db = insert_all i_gp_devices_list new_gp_device_db

-- `none` where the code returns false and leaves `o_key`.
unfoldable pub get_key_for_source_id : ℕ → GpDeviceDb → Option (List ℕ)
get_key_for_source_id i_source_id db = find i_source_id db

-- ===== src/DeviceDb/Lookup.antt =====
-- What CGPDeviceDb answers after its operations.
use libezsp.Common.{
  ℕ, ◌≡◌, refl, arith, ap, ◌∙◌, sym, ◌==◌, if◌then◌else◌, List, [], ◌∷◌, Option, none, some,
}
use libezsp.DeviceDb.{
  GpDevice, GpDeviceDb, find, erase, insert_device, remove_device, insert_all, set_db,
  get_key_for_source_id, is_source_id_in_db, new_gp_device_db,
}

-- The first one that is there.
abbrev pub or_else : Option (List ℕ) → Option (List ℕ) → Option (List ℕ)
or_else none b = b
or_else (some a) b = some a

-- Inserting a device gives its source ID the device's key only if the ID had none: an entry that is
-- there is kept, and no other source ID changes.
get_key-insert_device :
    (d : GpDevice) (db : GpDeviceDb) (s : ℕ)
    → get_key_for_source_id s (insert_device d db)
      ≡ or_else (get_key_for_source_id s db) (if d.source_id == s then some d.key else none)
unfolding get_key_for_source_id find insert_device
get_key-insert_device d db s = ground arith

or_else-none : (a : Option (List ℕ)) → a ≡ or_else a (get_key_for_source_id 0 [])
unfolding get_key_for_source_id find
or_else-none none = refl
or_else-none (some k) = refl

or_else_assoc : (a b c : Option (List ℕ)) → or_else (or_else a b) c ≡ or_else a (or_else b c)
or_else_assoc none b c = refl
or_else_assoc (some k) b c = refl

get_key-cons :
    (d : GpDevice) (db : GpDeviceDb) (s : ℕ)
    → get_key_for_source_id s (d ∷ db)
      ≡ or_else (if d.source_id == s then some d.key else none) (get_key_for_source_id s db)
unfolding get_key_for_source_id find
get_key-cons d db s = ground arith

get_key-insert_all :
    (ds : List GpDevice) (db : GpDeviceDb) (s : ℕ)
    → get_key_for_source_id s (insert_all ds db)
      ≡ or_else (get_key_for_source_id s db) (get_key_for_source_id s ds)
unfolding insert_all get_key_for_source_id find
get_key-insert_all [] db s = or_else-none (get_key_for_source_id s db)
get_key-insert_all (d ∷ ds) db s =
    get_key-insert_all ds (insert_device d db) s
    ∙ ap (λ o. or_else o (get_key_for_source_id s ds)) (get_key-insert_device d db s)
    ∙ or_else_assoc (get_key_for_source_id s db) _ (get_key_for_source_id s ds)
    ∙ ap (or_else (get_key_for_source_id s db)) (sym (get_key-cons d ds s))

-- A key is never overwritten, although the header of the class says that it is: after the database is
-- set to a list of devices, a source ID has the key of the first device in the list with that ID, and
-- nothing of the earlier content is left; after one more device is inserted, it has that device's key
-- only if the ID is the device's and was not in the list.
pub get_key-set_db :
    (ds : List GpDevice) (db : GpDeviceDb) (d : GpDevice) (s : ℕ)
    → (get_key_for_source_id s (set_db ds db) ≡ get_key_for_source_id s ds)
      × (get_key_for_source_id s (insert_device d (set_db ds db))
          ≡ or_else (get_key_for_source_id s ds) (if d.source_id == s then some d.key else none))
unfolding set_db new_gp_device_db get_key_for_source_id find
get_key-set_db ds db d s =
    let set = get_key-insert_all ds [] s in
    (
      set,
      get_key-insert_device d (insert_all ds []) s
          ∙ ap (λ o. or_else o (if d.source_id == s then some d.key else none)) set,
    )

find-erase :
    (s s' : ℕ) (db : GpDeviceDb) → find s' (erase s db) ≡ (if s == s' then none else find s' db)
unfolding find erase
find-erase s s' [] = ground arith
find-erase s s' (d ∷ db) = ground (arith, find-erase s s' db)

-- Removing a source ID tells whether it was there, takes its key away and changes no other.
pub get_key-remove_device :
    (s s' : ℕ) (db : GpDeviceDb)
    → let (db', was_there) = remove_device s db in
      (was_there ≡ is_source_id_in_db s db)
      × (get_key_for_source_id s' db' ≡ (if s == s' then none else get_key_for_source_id s' db))
unfolding remove_device get_key_for_source_id is_source_id_in_db
get_key-remove_device s s' db = (refl, find-erase s s' db)

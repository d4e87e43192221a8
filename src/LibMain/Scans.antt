-- ===== src/LibMain/Scans.antt =====
-- The scans of CLibEzspMain (src/ezsp/lib-ezsp-main.cpp): one at a time, and the results that the
-- application gets at the end.
use libezsp.Common.{ℕ, ◌≤◌, ◌<◌, ◌≡◌, refl, arith, ◌==◌, if◌then◌else◌, ◌∙◌, ap, sym}
use libezsp.Common.{Bool, true, false, List, [], ◌∷◌, Option, none, some, suc}
use libezsp.Common.{ℤ, int8, ◌++◌}
use libezsp.Effects.{Effect, energy_scan_told, state_told, state_of, ready}
use libezsp.LibMain.{LibMain, set_state, st_scanning, st_ready}
use libezsp.LibMain.Requests.{start_energy_scan, start_active_scan, is_scanning, Answer}
use libezsp.LibMain.Handlers.{emplace, handle_start_scan, handle_energy_scan_result, scan_complete}
use libezsp.LibMain.Handlers.{tell_energy_scan, tell_active_scan}

-- The keys rise, from a bound on.
abbrev pub IsFrom {ℓ} : {A : Type ℓ} → ℕ → List (ℕ × A) → Type 0
IsFrom b [] = Unit
IsFrom b ((k, v) ∷ rest) = (b ≤ k) × IsFrom (suc k) rest

-- The first value of a key.
abbrev pub find {ℓ} : {A : Type ℓ} → ℕ → List (ℕ × A) → Option A
find c [] = none
find c ((k, v) ∷ rest) = if c == k then some v else find c rest

abbrev pub or_else {ℓ} : {A : Type ℓ} → Option A → Option A → Option A
or_else none o = o
or_else (some a) o = some a

module _ {ℓ} {A : Type ℓ} where
  find-IsFrom : (c b : ℕ) (l : List (ℕ × A)) → c < b → IsFrom b l → find c l ≡ none
  find-IsFrom c b [] lt h = refl
  find-IsFrom c b ((k, v) ∷ rest) lt (le, h) =
      ground (arith, find-IsFrom c (suc k) rest (omega arith) h)

  emplace-IsFrom :
      (b k : ℕ) (v : A) (l : List (ℕ × A)) → b ≤ k → IsFrom b l → IsFrom b (emplace k v l)
  unfolding emplace
  emplace-IsFrom b k v [] le h = (le, tt)
  emplace-IsFrom b k v ((k', v') ∷ rest) le (le', h) =
      ground (arith, h, λ (less : suc k' ≤ k). emplace-IsFrom (suc k') k v rest less h)

  -- A key that is there keeps its value, and every other key is as it was.
  find-emplace :
      (b c k : ℕ) (v : A) (l : List (ℕ × A))
      → IsFrom b l
      → find c (emplace k v l) ≡ or_else (find c l) (if c == k then some v else none)
  unfolding emplace
  find-emplace b c k v [] h = refl
  find-emplace b c k v ((k', v') ∷ rest) (le, h) = ground (
    arith,
    find-emplace (suc k') c k v rest h,
    λ (lt : c < suc k'). find-IsFrom c (suc k') rest lt h,
  )

-- The results of a scan, each one in its message.
unfoldable pub handle_results : List (ℕ × ℕ) → LibMain → LibMain
unfolding handle_energy_scan_result
handle_results [] m = m
handle_results ((channel, rssi) ∷ rs) m =
    handle_results rs (state_of (handle_energy_scan_result (channel ∷ rssi ∷ []) m))

emplace_all : List (ℕ × ℤ) → List (ℕ × ℤ) → List (ℕ × ℤ)
emplace_all [] l = l
emplace_all ((k, v) ∷ rs) l = emplace_all rs (emplace k v l)

-- The results with their strengths as signed numbers.
abbrev pub signed : List (ℕ × ℕ) → List (ℕ × ℤ)
signed [] = []
signed ((channel, rssi) ∷ rs) = (channel, int8 rssi) ∷ signed rs

handle_results_lem :
    (rs : List (ℕ × ℕ)) (m : LibMain)
    → handle_results rs m ≡ record m {
      last_channel_to_energy_scan = emplace_all (signed rs) m.last_channel_to_energy_scan;
    }
unfolding handle_results emplace_all
handle_results_lem [] m = refl
handle_results_lem ((k, v) ∷ rs) m =
    handle_results_lem rs
      (record m { last_channel_to_energy_scan = emplace k (int8 v) m.last_channel_to_energy_scan })

or_else-none : (o : Option ℤ) → or_else o none ≡ o
or_else-none none = refl
or_else-none (some x) = refl

or_else_assoc : (a b c : Option ℤ) → or_else (or_else a b) c ≡ or_else a (or_else b c)
or_else_assoc none b c = refl
or_else_assoc (some x) b c = refl

or_else_if :
    (b : Bool) (x : ℤ) (c : Option ℤ)
    → or_else (if b then some x else none) c ≡ (if b then some x else c)
or_else_if true x c = refl
or_else_if false x c = refl

find-emplace_all :
    (c : ℕ) (rs l : List (ℕ × ℤ))
    → IsFrom 0 l
    → find c (emplace_all rs l) ≡ or_else (find c l) (find c rs)
unfolding emplace_all
find-emplace_all c [] l h = sym (or_else-none (find c l))
find-emplace_all c ((k, v) ∷ rs) l h =
    find-emplace_all c rs (emplace k v l) (emplace-IsFrom 0 k v l (omega arith) h)
    ∙ ap (λ o. or_else o (find c rs)) (find-emplace 0 c k v l h)
    ∙ or_else_assoc (find c l) (if c == k then some v else none) (find c rs)
    ∙ ap (or_else (find c l)) (or_else_if (c == k) v (find c rs))

-- Neither scan can be started.
abbrev pub IsExclusive : LibMain → Type 0
IsExclusive m =
    (given : Bool) (duration mask : ℕ)
    → (start_energy_scan given duration mask m ≡ (m, [], false))
      × (start_active_scan given duration mask m ≡ (m, [], false))

-- A scan that was accepted, after the adapter's answer to its start and any results.
abbrev pub going_on : ℕ → List (ℕ × ℕ) → Answer → LibMain
going_on status rs a = handle_results rs (state_of (handle_start_scan (status ∷ []) a.0))

-- Both scans can be started.
abbrev pub IsOpen : LibMain → Type 0
IsOpen m =
    (given : Bool) (duration mask : ℕ)
    → ((start_energy_scan given duration mask m).2 ≡ true)
      × ((start_active_scan given duration mask m).2 ≡ true)

-- The whole time of a scan, from its request on.
abbrev pub IsOneAtATime : ℕ → List (ℕ × ℕ) → Answer → Type 0
IsOneAtATime status rs a =
    (a.2 ≡ true)
    × IsExclusive a.0
    × IsExclusive (going_on status rs a)
    × IsOpen (scan_complete (going_on status rs a)).0

-- The scan from its request to its end.
abbrev pub scanned : ℕ → ℕ → List (ℕ × ℕ) → LibMain → LibMain × List Effect
scanned duration mask rs m =
    let (started, es, accepted) = start_energy_scan true duration mask m in
    scan_complete (handle_results rs (state_of (handle_start_scan (0 ∷ []) started)))

-- What a scan that is started looks like.
abbrev running : LibMain → LibMain
running m = record m {
  lib_state = st_scanning;
  has_energy_scan_callback = true;
  has_active_scan_callback = false;
  last_channel_to_energy_scan = [];
}

start_energy_scan_lem :
    (m : LibMain) (duration mask : ℕ)
    → is_scanning m ≡ false
    → (start_energy_scan true duration mask m).0 ≡ running m
unfolding start_energy_scan set_state
start_energy_scan_lem m duration mask idle = ground arith

-- And when it is over.
abbrev over : LibMain → List (ℕ × ℤ) → LibMain
over m l = record m {
  lib_state = st_ready;
  scan_in_progress = false;
  has_energy_scan_callback = false;
  has_active_scan_callback = false;
  last_channel_to_energy_scan = l;
}

-- READY is told where there is a callback for the state.
abbrev pub told_ready : LibMain → List Effect
told_ready m = if m.has_state_callback then state_told ready ∷ [] else []

scanned_lem :
    (m : LibMain) (duration mask : ℕ) (rs : List (ℕ × ℕ))
    → is_scanning m ≡ false
    → scanned duration mask rs m ≡ (
      over m (emplace_all (signed rs) []),
      told_ready m ++ (energy_scan_told (emplace_all (signed rs) []) ∷ []),
    )
unfolding handle_start_scan scan_complete set_state tell_energy_scan tell_active_scan
scanned_lem m duration mask rs idle =
    let started : LibMain = record (running m) { scan_in_progress = true } in
    rw (start_energy_scan_lem m duration mask idle, handle_results_lem rs started) (ground arith)

-- An energy scan that is requested with a callback while none is running, that the adapter starts and
-- ends and for which it sends any results, ends in READY, with no scan in progress and the callback
-- cleared; at the end READY is told, where there is a callback for the state, and then the scan's
-- callback gets a map which gives each channel its first result in this scan, as a signed byte, and
-- nothing for a channel without one, whatever an earlier scan has found.
pub energy_scan_results :
    (m : LibMain) (duration mask : ℕ) (rs : List (ℕ × ℕ))
    → is_scanning m ≡ false
    → let (ended, es) = scanned duration mask rs m in
      (ended.lib_state ≡ st_ready)
      × (is_scanning ended ≡ false)
      × (ended.has_energy_scan_callback ≡ false)
      × (es ≡ told_ready m ++ (energy_scan_told ended.last_channel_to_energy_scan ∷ []))
      × ((c : ℕ) → find c ended.last_channel_to_energy_scan ≡ find c (signed rs))
energy_scan_results m duration mask rs idle =
    rw (scanned_lem m duration mask rs idle)
      (refl, refl, refl, refl, λ c. find-emplace_all c (signed rs) [] tt)

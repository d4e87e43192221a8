-- ===== src/Effects.antt =====
-- What the components of src/ezsp/lib-ezsp-main.cpp and src/ezsp/zigbee-tools/ do to their
-- surroundings, in the order of the calls, and how a handler ends.
use libezsp.Common.{ℕ, ℤ, Bool, List, ◌++◌}
use libezsp.Dongle.{Mode}
use libezsp.GpFrame.{GpFrame}
use libezsp.Structs.Adapter.{ScanResult}

-- CLibEzspPublic::State.
pub data PublicState : Type 0 where
  uninitialized ready init_failed sink_busy in_xmodem_xfr terminating : PublicState

-- CGpSink::State.
pub data SinkState : Type 0 where
  sink_not_init sink_ready sink_error sink_com_open sink_com_in_progress : SinkState
  sink_com_offline_in_progress sink_authorize_answer_ch_rqst sink_clear_all : SinkState
  sink_remove_in_progress : SinkState

-- CGpdKeyStatus.
pub data KeyStatus : Type 0 where
  undefined valid invalid : KeyStatus

-- The results of a scan are the pairs of the map's keys and values.
pub data Effect : Type 0 where
  sends : ℕ → List ℕ → Effect
  stack_version_fetched : ℕ → Effect
  ezsp_version_fetched : ℕ → ℕ → ℕ → Effect
  xncp_fetched : ℕ → ℕ → Effect
  mode_set : Mode → Effect
  state_told : PublicState → Effect
  sink_state_told : SinkState → Effect
  child_found : ℕ → List ℕ → ℕ → Effect
  key_told : ℕ → List ℕ → Effect
  energy_scan_told : List (ℕ × ℤ) → Effect
  active_scan_told : List (ℕ × List ScanResult) → Effect
  gp_frame_told : GpFrame → Effect
  gpd_id_told : ℕ → Bool → KeyStatus → Effect

-- A handler returns, or `at()` throws after the state and the effects that are given.
pub data Ran {ℓ} (S : Type ℓ) : Type ℓ where
  ran thrown : S → List Effect → Ran S

abbrev pub state_of {ℓ} : {S : Type ℓ} → Ran S → S
state_of (ran s es) = s
state_of (thrown s es) = s

abbrev pub effects_of {ℓ} : {S : Type ℓ} → Ran S → List Effect
effects_of (ran s es) = es
effects_of (thrown s es) = es

-- A call after what was done before it.
abbrev pub and_then {ℓ} : {S : Type ℓ} → S × List Effect → (S → S × List Effect) → S × List Effect
and_then (s, es) f = let (s', es') = f s in (s', es ++ es')

abbrev pub returned {ℓ} : {S : Type ℓ} → S × List Effect → Ran S
returned (s, es) = ran s es

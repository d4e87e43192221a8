-- ===== src/Sink/Fits.antt =====
-- The commands of CGpSink (src/ezsp/zigbee-tools/green-power-sink.cpp) are short enough for the dongle
-- and never ask for the EZSP version.
use libezsp.Common.{ℕ, ◌≤◌, ◌<◌, ◌≡◌, refl, arith, Bool, List, [], ◌∷◌}
use libezsp.Common.{length, length-append, u8, All, All-append, Option, none, some}
use libezsp.DeviceDb.{GpDevice}
use libezsp.GpStruct.{GpAddress, get_gp_address, source_id_address}
use libezsp.Aps.{ApsFrame, get_ember_aps}
use libezsp.Zcl.{ZclHeader, get_zcl_header}
use libezsp.Effects.{Effect, sends, Ran, ran, thrown, and_then, SinkState, sink_ready}
use libezsp.Effects.{sink_com_open}
use libezsp.ZigbeeMsg.{ZigbeeMsg, send_unicast, get_message}
use libezsp.Effects.{sink_clear_all, sink_remove_in_progress, sink_com_offline_in_progress}
use libezsp.EzspEnum.{ezsp_gp_sink_table_lookup, ezsp_gp_sink_table_find_or_allocate_entry}
use libezsp.Sink.{GpSink, set_sink_state, init, told_state, open_commissioning_session}
use libezsp.Sink.{close_commissioning_session, send_local_gp_proxy_commissioning_mode}
use libezsp.Sink.{commissioning_mode_msg, clear_all_gpds, gp_clear_all_tables, remove_gpds}
use libezsp.Sink.{register_gpds, gp_sink_table_lookup, gp_sink_table_find_or_allocate_entry}

-- A command with at most 250 bytes that is not EZSP_VERSION.
abbrev pub IsPlain : Effect → Type 0
IsPlain (sends cmd payload) = (0 < cmd) × (length payload ≤ 250)
IsPlain _ = Unit

-- EmberKeyData has 16 bytes.
abbrev pub IsKeyed : GpDevice → Type 0
IsKeyed g = length g.key ≤ 16

pub record KeysFit (s : GpSink) : Type 0 where
  pub entry_key : length s.sink_table_entry.gpd_key ≤ 16
  pub register_keys : All IsKeyed s.gpds_to_register

-- What an operation leaves and does.
abbrev pub IsFit : GpSink × List Effect → Type 0
IsFit (s, es) = KeysFit s × All IsPlain es

abbrev pub IsFitRan : Ran GpSink → Type 0
IsFitRan (ran s es) = KeysFit s × All IsPlain es
IsFitRan (thrown s es) = KeysFit s × All IsPlain es

pub IsFit-then :
    (r : GpSink × List Effect) (f : GpSink → GpSink × List Effect)
    → IsFit r
    → ((s : GpSink) → KeysFit s → IsFit (f s))
    → IsFit (and_then r f)
IsFit-then (s, es) f (k, ps) h = let (k', ps') = h s k in (k', All-append IsPlain es (f s).1 ps ps')

pub length-get_gp_address : (g : GpAddress) → length (get_gp_address g) ≡ 10
unfolding get_gp_address
length-get_gp_address g = refl

pub length-get_ember_aps : (a : ApsFrame) → length (get_ember_aps a) ≡ 11
unfolding get_ember_aps
length-get_ember_aps a = refl

pub length-get_zcl_header : (h : ZclHeader) → length (get_zcl_header h) ≤ 5
unfolding get_zcl_header
length-get_zcl_header h = ground arith

pub length-send_unicast :
    (node_id : ℕ) (m : ZigbeeMsg) → length m.payload ≤ 200 → IsPlain (send_unicast node_id m)
unfolding send_unicast get_message
length-send_unicast node_id m h = ground (
  arith,
  length-get_ember_aps m.aps,
  length-get_zcl_header m.zcl_header,
  length-append (get_zcl_header m.zcl_header) m.payload,
  length-append (get_ember_aps m.aps) (0 ∷ u8 (length (get_message m)) ∷ get_message m),
)

told-IsPlain :
    (f : Option (SinkState → Bool)) (i_state : SinkState) → All IsPlain (told_state f i_state)
told-IsPlain none i_state = tt
told-IsPlain (some f) i_state = (tt, tt)

pub set_sink_state-IsFit :
    (i_state : SinkState) (s : GpSink) → KeysFit s → IsFit (set_sink_state i_state s)
unfolding set_sink_state
set_sink_state-IsFit i_state s k = (
  record { entry_key = k.entry_key; register_keys = k.register_keys },
  told-IsPlain s.state_callback i_state,
)

pub init-IsFit : (s : GpSink) → KeysFit s → IsFit (init s)
unfolding init
init-IsFit s k = ground (arith, set_sink_state-IsFit sink_ready s k)

pub source-IsPlain :
    (cmd i_src_id : ℕ) → 0 < cmd → IsPlain (sends cmd (get_gp_address (source_id_address i_src_id)))
source-IsPlain cmd i_src_id h =
    (h, omega (arith, length-get_gp_address (source_id_address i_src_id)))

pub commissioning_mode-IsPlain :
    (i_option : ℕ) → IsPlain (send_local_gp_proxy_commissioning_mode i_option)
unfolding commissioning_mode_msg send_local_gp_proxy_commissioning_mode
commissioning_mode-IsPlain i_option =
    length-send_unicast 0 (commissioning_mode_msg i_option) (omega arith)

pub open_session-IsFit : (s : GpSink) → KeysFit s → IsFit (open_commissioning_session s)
unfolding open_commissioning_session
open_session-IsFit s k =
    ground (arith, set_sink_state-IsFit sink_com_open s k, commissioning_mode-IsPlain 0x05)

pub close_session-IsFit : (s : GpSink) → KeysFit s → IsFit (close_commissioning_session s)
unfolding close_commissioning_session
close_session-IsFit s k =
    ground (arith, set_sink_state-IsFit sink_ready s k, commissioning_mode-IsPlain 0x00)

-- A request, whatever it returns.
abbrev pub IsFitAnswer : GpSink × List Effect × Bool → Type 0
IsFitAnswer (s, es, b) = IsFit (s, es)

pub clear_all_gpds-IsFit : (s : GpSink) → KeysFit s → IsFitAnswer (clear_all_gpds s)
unfolding clear_all_gpds gp_clear_all_tables
clear_all_gpds-IsFit s k = ground (
  arith,
  set_sink_state-IsFit sink_clear_all s k,
  All-append IsPlain (set_sink_state sink_clear_all s).1,
)

pub remove_gpds-IsFit : (ids : List ℕ) (s : GpSink) → KeysFit s → IsFitAnswer (remove_gpds ids s)
unfolding remove_gpds
remove_gpds-IsFit [] s k = ground arith
remove_gpds-IsFit (g ∷ gs) s k = ground (
  arith,
  set_sink_state-IsFit sink_remove_in_progress s k,
  All-append IsPlain (set_sink_state sink_remove_in_progress s).1 (gp_sink_table_lookup g ∷ []),
  source-IsPlain ezsp_gp_sink_table_lookup g,
)

pub register_gpds-IsFit :
    (gs : List GpDevice) (s : GpSink)
    → All IsKeyed gs
    → KeysFit s
    → IsFitAnswer (register_gpds gs s)
unfolding register_gpds
register_gpds-IsFit [] s keyed k = ground arith
register_gpds-IsFit (g ∷ gs) s keyed k = ground (
  arith,
  set_sink_state-IsFit sink_com_offline_in_progress s k,
  All-append IsPlain (set_sink_state sink_com_offline_in_progress s).1
      (gp_sink_table_find_or_allocate_entry g.source_id ∷ []),
  source-IsPlain ezsp_gp_sink_table_find_or_allocate_entry g.source_id,
)

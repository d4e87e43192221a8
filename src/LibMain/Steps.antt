-- ===== src/LibMain/Steps.antt =====
-- What every operation of CLibEzspMain (src/ezsp/lib-ezsp-main.cpp) keeps: the bounds of the EZSP
-- version, which is asked for again only when the expected version rises, and the size of the
-- commands. This is the notion of such a step and its composition.
use libezsp.Common.{ℕ, ◌+◌, ◌≤◌, ◌==◌, ◌≡◌, refl, arith, List, [], ◌∷◌, ◌++◌}
use libezsp.Common.{length, All, All-append, Option, none, some, if◌then◌else◌}
use libezsp.Effects.{Effect, sends, stack_version_fetched, ezsp_version_fetched, xncp_fetched}
use libezsp.Effects.{mode_set, state_told, sink_state_told, child_found, key_told}
use libezsp.Effects.{energy_scan_told, active_scan_told, gp_frame_told, gpd_id_told}
use libezsp.Effects.{and_then, PublicState}
use libezsp.Sink.{GpSink}
use libezsp.Sink.Fits.{IsPlain, KeysFit, IsFit}
use libezsp.LibMain.{LibMain, State, set_state, absorb, absorb_one, sink_done, told_public}
use libezsp.LibMain.{sink_state_changed, public_state, st_ready}

-- A command of at most 250 bytes.
abbrev pub IsShort : Effect → Type 0
IsShort (sends cmd payload) = length payload ≤ 250
IsShort _ = Unit

abbrev pub is_version : Effect → ℕ
is_version (sends cmd payload) = if cmd == 0 then 1 else 0
is_version _ = 0

-- The number of the commands EZSP_VERSION.
unfoldable pub versions : List Effect → ℕ
versions [] = 0
versions (e ∷ es) = is_version e + versions es

-- From one state to another with the effects that are given. Each EZSP_VERSION that is sent has its
-- own rise of the expected version.
pub record Step (m m' : LibMain) (es : List Effect) : Type 0 where
  pub keys : KeysFit m'.gp_sink
  pub short : All IsShort es
  pub counted : versions es + m.exp_ezsp_min_version ≤ m'.exp_ezsp_min_version
  pub bounded : m'.exp_ezsp_min_version ≤ m'.exp_ezsp_max_version
  pub max_kept : m'.exp_ezsp_max_version ≡ m.exp_ezsp_max_version
  pub type_kept : m'.exp_stack_type ≡ m.exp_stack_type

pub record IsSound (m : LibMain) : Type 0 where
  pub keys : KeysFit m.gp_sink
  pub bounded : m.exp_ezsp_min_version ≤ m.exp_ezsp_max_version

pub Step-IsSound : (m m' : LibMain) (es : List Effect) → Step m m' es → IsSound m'
Step-IsSound m m' es s = record { keys = s.keys; bounded = s.bounded }

abbrev pub IsStep : LibMain → LibMain × List Effect → Type 0
IsStep m (m', es) = Step m m' es

pub versions-append : (es es' : List Effect) → versions (es ++ es') ≡ versions es + versions es'
unfolding versions
versions-append [] es' = omega arith
versions-append (e ∷ es) es' = omega (arith, versions-append es es')

plain_one : (e : Effect) → IsPlain e → IsShort e × (is_version e ≡ 0)
plain_one (sends cmd payload) p = ground arith
plain_one (stack_version_fetched v) p = (tt, refl)
plain_one (ezsp_version_fetched s p t) h = (tt, refl)
plain_one (xncp_fetched i v) p = (tt, refl)
plain_one (mode_set d) p = (tt, refl)
plain_one (state_told t) p = (tt, refl)
plain_one (sink_state_told t) p = (tt, refl)
plain_one (child_found t e i) p = (tt, refl)
plain_one (key_told s key) p = (tt, refl)
plain_one (energy_scan_told r) p = (tt, refl)
plain_one (active_scan_told r) p = (tt, refl)
plain_one (gp_frame_told f) p = (tt, refl)
plain_one (gpd_id_told i known s) p = (tt, refl)

plain-counted : (es : List Effect) → All IsPlain es → All IsShort es × (versions es ≡ 0)
unfolding versions
plain-counted [] ps = (tt, refl)
plain-counted (e ∷ es) (p, ps) =
    let (short, none_here) = plain_one e p in
    let (shorts, none_there) = plain-counted es ps in ((short, shorts), omega arith)

-- The fields that a step is about are not changed, and the effects are harmless.
pub plain-Step :
    (m m' : LibMain) (es : List Effect)
    → IsSound m
    → KeysFit m'.gp_sink
    → All IsPlain es
    → m'.exp_ezsp_min_version ≡ m.exp_ezsp_min_version
    → m'.exp_ezsp_max_version ≡ m.exp_ezsp_max_version
    → m'.exp_stack_type ≡ m.exp_stack_type
    → Step m m' es
plain-Step m m' es i k ps same_min same_max same_type =
    ground (arith, plain-counted es ps, i.bounded)

pub then-Step :
    (m : LibMain) (r : LibMain × List Effect) (f : LibMain → LibMain × List Effect)
    → IsStep m r
    → (IsSound r.0 → IsStep r.0 (f r.0))
    → IsStep m (and_then r f)
then-Step m (m', es) f s h =
    let t = h (Step-IsSound m m' es s) in
    let (m'', es') = f m' in
    record {
      keys = t.keys;
      short = All-append IsShort es es' s.short t.short;
      counted = omega (arith, s.counted, t.counted, versions-append es es');
      bounded = t.bounded;
      max_kept = omega (arith, s.max_kept, t.max_kept);
      type_kept = omega (arith, s.type_kept, t.type_kept);
    }

-- Harmless effects at the end of a step.
pub effects-Step :
    (m : LibMain) (r : LibMain × List Effect) (es : List Effect)
    → IsStep m r
    → All IsPlain es
    → IsStep m (and_then r (λ m'. (m', es)))
effects-Step m r es s ps =
    then-Step m r (λ m'. (m', es)) s (λ i. plain-Step r.0 r.0 es i i.keys ps refl refl refl)

told-IsPlain : (o : Option PublicState) → All IsPlain (told_public o)
told-IsPlain none = tt
told-IsPlain (some p) = (tt, tt)

pub set_state-Step : (st : State) (m : LibMain) → IsSound m → IsStep m (set_state st m)
unfolding set_state
set_state-Step st m i =
    plain-Step m _ _ i i.keys (ground (arith, told-IsPlain (public_state st))) refl refl refl

-- Nothing but harmless effects.
pub same-Step : (m : LibMain) (es : List Effect) → IsSound m → All IsPlain es → Step m m es
same-Step m es i ps = plain-Step m m es i i.keys ps refl refl refl

absorb_one-Step : (e : Effect) (m : LibMain) → IsPlain e → IsSound m → IsStep m (absorb_one e m)
unfolding sink_state_changed
absorb_one-Step (sends cmd payload) m p i = same-Step m _ i (p, tt)
absorb_one-Step (stack_version_fetched v) m p i = same-Step m _ i (tt, tt)
absorb_one-Step (ezsp_version_fetched s r t) m p i = same-Step m _ i (tt, tt)
absorb_one-Step (xncp_fetched x v) m p i = same-Step m _ i (tt, tt)
absorb_one-Step (mode_set d) m p i = same-Step m _ i (tt, tt)
absorb_one-Step (state_told t) m p i = same-Step m _ i (tt, tt)
absorb_one-Step (sink_state_told t) m p i =
    ground (arith, set_state-Step st_ready m i, same-Step m [] i tt)
absorb_one-Step (child_found t e x) m p i = same-Step m _ i (tt, tt)
absorb_one-Step (key_told s key) m p i = same-Step m _ i (tt, tt)
absorb_one-Step (energy_scan_told r) m p i = same-Step m _ i (tt, tt)
absorb_one-Step (active_scan_told r) m p i = same-Step m _ i (tt, tt)
absorb_one-Step (gp_frame_told f) m p i = same-Step m _ i (ground arith)
absorb_one-Step (gpd_id_told x known s) m p i = same-Step m _ i (ground arith)

pub absorb-Step :
    (es : List Effect) (m : LibMain) → All IsPlain es → IsSound m → IsStep m (absorb es m)
unfolding absorb
absorb-Step [] m ps i = same-Step m [] i tt
absorb-Step (e ∷ es) m (p, ps) i =
    then-Step m (absorb_one e m) (absorb es) (absorb_one-Step e m p i)
      (λ i'. absorb-Step es (absorb_one e m).0 ps i')

-- The step that begins with a change of fields that do not matter.
pub from-Step :
    (m m₁ : LibMain) (r : LibMain × List Effect)
    → IsSound m
    → KeysFit m₁.gp_sink
    → m₁.exp_ezsp_min_version ≡ m.exp_ezsp_min_version
    → m₁.exp_ezsp_max_version ≡ m.exp_ezsp_max_version
    → m₁.exp_stack_type ≡ m.exp_stack_type
    → (IsSound m₁ → IsStep m₁ r)
    → IsStep m r
from-Step m m₁ (m', es) i k same_min same_max same_type h =
    let i₁ : IsSound m₁ = record { keys = k; bounded = omega (arith, i.bounded) } in
    let s = h i₁ in
    record {
      keys = s.keys;
      short = s.short;
      counted = omega (arith, s.counted);
      bounded = s.bounded;
      max_kept = omega (arith, s.max_kept);
      type_kept = omega (arith, s.type_kept);
    }

pub sink_done-Step :
    (r : GpSink × List Effect) (m : LibMain) → IsFit r → IsSound m → IsStep m (sink_done r m)
sink_done-Step (s, es) m (k, ps) i =
    from-Step m (record m { gp_sink = s }) _ i k refl refl refl
      (λ i'. absorb-Step es (record m { gp_sink = s }) ps i')

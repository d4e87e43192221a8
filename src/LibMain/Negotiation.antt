-- ===== src/LibMain/Negotiation.antt =====
-- The observers of the dongle (src/ezsp/lib-ezsp-main.cpp, src/ezsp/zigbee-tools/) under any history
-- of messages: the negotiation of the EZSP version ends and every command fits the dongle's queue.
use libezsp.Common.{ℕ, ◌+◌, ◌≤◌, ◌≡◌, refl, arith, List, [], ◌∷◌, ◌++◌}
use libezsp.Common.{length, All}
use libezsp.Commissioning.{Aes}
use libezsp.Effects.{Effect, Ran, ran, thrown, and_then, effects_of, state_of}
use libezsp.Networking.{ZigbeeNetworking}
use libezsp.Networking as Networking
use libezsp.Networking.Fits.{networking-IsPlain, IsPlainRan}
use libezsp.Sink.{GpSink, new_gp_sink}
use libezsp.Sink.Incoming as Incoming
use libezsp.Sink.Incoming.{after}
use libezsp.Sink.Fits.{IsPlain, IsFitRan, KeysFit}
use libezsp.Sink.FitIncoming.{handle_ezsp_rx_message-IsFit}
use libezsp.LibMain.{LibMain, absorb, new_lib_ezsp_main}
use libezsp.LibMain.Init.{Draws}
use libezsp.LibMain.Handlers.{handle_main_message, handle_messaging, handle_networking}
use libezsp.LibMain.Handlers.{handle_sink, then_run, networking_ran, sink_ran}
use libezsp.LibMain.Handlers.{handle_ezsp_rx_message}
use libezsp.LibMain.Steps.{Step, IsStep, IsSound, versions, plain-Step, same-Step, absorb-Step}
use libezsp.LibMain.Steps.{from-Step, Step-IsSound, IsShort, then-Step}
use libezsp.LibMain.StepInit.{IsStepRan}
use libezsp.LibMain.StepMessages.{main-Step}

-- Two steps one after the other.
join-Step :
    (m m' m'' : LibMain) (es es' : List Effect)
    → Step m m' es
    → Step m' m'' es'
    → Step m m'' (es ++ es')
join-Step m m' m'' es es' s t = then-Step m (m', es) (λ _. (m'', es')) s (λ _. t)

after-Step :
    (m m' : LibMain) (es : List Effect) (r : Ran LibMain)
    → Step m m' es
    → IsStepRan m' r
    → IsStepRan m (after es r)
after-Step m m' es (ran m'' es') s t = join-Step m m' m'' es es' s t
after-Step m m' es (thrown m'' es') s t = join-Step m m' m'' es es' s t

then_run-Step :
    (m : LibMain) (r : Ran LibMain) (f : LibMain → Ran LibMain)
    → IsStepRan m r
    → ((m' : LibMain) → IsSound m' → IsStepRan m' (f m'))
    → IsStepRan m (then_run r f)
then_run-Step m (ran m' es) f s h = after-Step m m' es (f m') s (h m' (Step-IsSound m m' es s))
then_run-Step m (thrown m' es) f s h = s

messaging-Step :
    (cmd : ℕ) (msg : List ℕ) (m : LibMain) → IsSound m → IsStepRan m (handle_messaging cmd msg m)
unfolding handle_messaging
messaging-Step cmd msg m i = ground (arith, same-Step m [] i tt)

networking_ran-Step :
    (r : Ran ZigbeeNetworking) (m : LibMain)
    → IsPlainRan r
    → IsSound m
    → IsStepRan m (networking_ran r m)
networking_ran-Step (ran n es) m ps i = plain-Step m _ es i i.keys ps refl refl refl
networking_ran-Step (thrown n es) m ps i = plain-Step m _ es i i.keys ps refl refl refl

networking-Step :
    (draws : Draws) (cmd : ℕ) (msg : List ℕ) (m : LibMain)
    → IsSound m
    → IsStepRan m (handle_networking draws cmd msg m)
unfolding handle_networking
networking-Step draws cmd msg m i =
    networking_ran-Step (Networking.handle_ezsp_rx_message draws.pan_id cmd msg m.zb_nwk) m
      (networking-IsPlain draws.pan_id cmd msg m.zb_nwk) i

absorbed-Step :
    (s : GpSink) (es : List Effect) (m : LibMain)
    → KeysFit s
    → All IsPlain es
    → IsSound m
    → IsStep m (absorb es (record m { gp_sink = s }))
absorbed-Step s es m k ps i =
    from-Step m (record m { gp_sink = s }) (absorb es (record m { gp_sink = s })) i k refl refl refl
      (λ i'. absorb-Step es (record m { gp_sink = s }) ps i')

sink_ran-Step : (r : Ran GpSink) (m : LibMain) → IsFitRan r → IsSound m → IsStepRan m (sink_ran r m)
sink_ran-Step (ran s es) m (k, ps) i = absorbed-Step s es m k ps i
sink_ran-Step (thrown s es) m (k, ps) i = absorbed-Step s es m k ps i

sink-Step :
    (aes : Aes) (cmd : ℕ) (msg : List ℕ) (m : LibMain)
    → IsSound m
    → IsStepRan m (handle_sink aes cmd msg m)
unfolding handle_sink
sink-Step aes cmd msg m i =
    sink_ran-Step (Incoming.handle_ezsp_rx_message aes cmd msg m.gp_sink) m
      (handle_ezsp_rx_message-IsFit aes cmd msg m.gp_sink i.keys) i

pub handle_ezsp_rx_message-Step :
    (aes : Aes) (draws : Draws) (cmd : ℕ) (msg : List ℕ) (m : LibMain)
    → length draws.network_key ≤ 16
    → IsSound m
    → IsStepRan m (handle_ezsp_rx_message aes draws cmd msg m)
unfolding handle_ezsp_rx_message
handle_ezsp_rx_message-Step aes draws cmd msg m h i =
    let main = handle_main_message draws cmd msg m in
    let messaging = then_run main (handle_messaging cmd msg) in
    let networking = then_run messaging (handle_networking draws cmd msg) in
    then_run-Step m networking (handle_sink aes cmd msg)
      (then_run-Step m messaging (handle_networking draws cmd msg)
        (then_run-Step m main (handle_messaging cmd msg) (main-Step draws cmd msg m h i)
          (messaging-Step cmd msg))
        (networking-Step draws cmd msg))
      (sink-Step aes cmd msg)

-- A message, with what is drawn while it is handled.
pub record Received : Type 0 where
  pub draws : Draws
  pub cmd : ℕ
  pub msg : List ℕ

-- The messages one after the other; what a handler did before it threw stays done.
unfoldable pub handle_messages : Aes → List Received → LibMain → LibMain × List Effect
handle_messages aes [] m = (m, [])
handle_messages aes (r ∷ rs) m =
    let out = handle_ezsp_rx_message aes r.draws r.cmd r.msg m in
    and_then (state_of out, effects_of out) (handle_messages aes rs)

abbrev pub DrawsKey : Received → Type 0
DrawsKey r = length r.draws.network_key ≤ 16

ran-Step : (m : LibMain) (r : Ran LibMain) → IsStepRan m r → IsStep m (state_of r, effects_of r)
ran-Step m (ran m' es) s = s
ran-Step m (thrown m' es) s = s

handle_messages-Step :
    (aes : Aes) (rs : List Received) (m : LibMain)
    → All DrawsKey rs
    → IsSound m
    → IsStep m (handle_messages aes rs m)
unfolding handle_messages
handle_messages-Step aes [] m ds i = same-Step m [] i tt
handle_messages-Step aes (r ∷ rs) m (d, ds) i =
    let out = handle_ezsp_rx_message aes r.draws r.cmd r.msg m in
    then-Step m (state_of out, effects_of out) (handle_messages aes rs)
      (ran-Step m out (handle_ezsp_rx_message-Step aes r.draws r.cmd r.msg m d i))
      (λ i'. handle_messages-Step aes rs (state_of out) ds i')

pub new-IsSound : (channel : ℕ) → IsSound (new_lib_ezsp_main channel)
unfolding new_lib_ezsp_main new_gp_sink
new-IsSound channel = record {
  keys = record { entry_key = omega arith; register_keys = tt };
  bounded = omega arith;
}

-- Whatever messages the adapter sends, the library asks for the EZSP version at most as many times as
-- the highest version that it supports exceeds the one that it expects at the beginning, so the
-- negotiation ends; the expected version never gets lower than it was nor higher than the highest one,
-- which does not change. The keys of the sink and each network key that is drawn have at most 16
-- bytes, and the expected version is not above the highest one at the beginning.
pub negotiation_ends :
    (aes : Aes) (rs : List Received) (m : LibMain)
    → All DrawsKey rs
    → IsSound m
    → let (m', es) = handle_messages aes rs m in
      (versions es + m.exp_ezsp_min_version ≤ m.exp_ezsp_max_version)
      × (m.exp_ezsp_min_version ≤ m'.exp_ezsp_min_version)
      × (m'.exp_ezsp_min_version ≤ m'.exp_ezsp_max_version)
      × (m'.exp_ezsp_max_version ≡ m.exp_ezsp_max_version)
negotiation_ends aes rs m ds i =
    let s = handle_messages-Step aes rs m ds i in omega (arith, s.counted, s.bounded, s.max_kept)

pub handle_messages-IsShort :
    (aes : Aes) (rs : List Received) (m : LibMain)
    → All DrawsKey rs
    → IsSound m
    → All IsShort (handle_messages aes rs m).1
handle_messages-IsShort aes rs m ds i = (handle_messages-Step aes rs m ds i).short

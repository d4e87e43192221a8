-- ===== src/Networking/Fits.antt =====
-- The commands of CZigbeeNetworking (src/ezsp/zigbee-tools/zigbee-networking.cpp) are short enough for
-- the dongle and never ask for the EZSP version.
use libezsp.Common.{ℕ, ◌≤◌, ◌≡◌, refl, arith, List, [], ◌∷◌, ◌++◌, map}
use libezsp.Common.{length, length-append, All, All-append, Option, none, some}
use libezsp.Common.{bit_and}
use libezsp.Effects.{Effect, Ran, ran, thrown}
use libezsp.Structs.NetworkParameters.{NetworkParameters, get_network_parameters_raw}
use libezsp.Structs.Adapter.{ChildData, read_child_data}
use libezsp.Networking.{ZigbeeNetworking, EzspConfig, EzspPolicy, set_config, set_policy}
use libezsp.Networking.{stack_init, join_network, form_ha_network, leave_network, next_child}
use libezsp.Networking.{handle_child_data, handle_security_state, status_only, parameters_to_form}
use libezsp.Networking.{handle_ezsp_rx_message}
use libezsp.Sink.Fits.{IsPlain}

All-map :
    {A : Type 0} (f : A → Effect) (xs : List A) → ((a : A) → IsPlain (f a)) → All IsPlain (map f xs)
All-map f [] h = tt
All-map f (x ∷ xs) h = (h x, All-map f xs h)

pub stack_init-IsPlain :
    (cs : List EzspConfig) (ps : List EzspPolicy) → All IsPlain (stack_init cs ps)
unfolding stack_init
stack_init-IsPlain cs ps =
    All-append IsPlain (map set_config cs ++ map set_policy ps) _
      (All-append IsPlain (map set_config cs) (map set_policy ps)
        (All-map set_config cs (λ c. (omega arith, omega arith)))
        (All-map set_policy ps (λ p. (omega arith, omega arith))))
      ((omega arith, omega arith), ((omega arith, omega arith), tt))

length-network_parameters : (p : NetworkParameters) → length (get_network_parameters_raw p) ≡ 20
unfolding get_network_parameters_raw
length-network_parameters p = refl

pub join_network-IsPlain : (p : NetworkParameters) → All IsPlain (join_network p)
unfolding join_network
join_network-IsPlain p = ((omega arith, omega (arith, length-network_parameters p)), tt)

length-map : {A B : Type 0} (f : A → B) (xs : List A) → length (map f xs) ≡ length xs
length-map f [] = refl
length-map f (x ∷ xs) = omega (arith, length-map f xs)

pub form_ha_network-IsPlain :
    (drawn : List ℕ) (channel : ℕ) (n : ZigbeeNetworking)
    → length drawn ≤ 16
    → All IsPlain (form_ha_network drawn channel n).1
unfolding form_ha_network
form_ha_network-IsPlain drawn channel n h = (
  (omega arith, omega arith),
  (
    (omega arith, omega arith),
    ((omega arith, simp length-append (omega (arith, length-map (λ b. bit_and b 0xff) drawn))), tt),
  ),
)

pub leave_network-IsPlain : All IsPlain leave_network
unfolding leave_network
leave_network-IsPlain = ((omega arith, omega arith), tt)

-- Whether the handler returns or throws.
abbrev pub IsPlainRan : Ran ZigbeeNetworking → Type 0
IsPlainRan (ran n es) = All IsPlain es
IsPlainRan (thrown n es) = All IsPlain es

child-IsPlain :
    (o : Option ChildData) (n : ZigbeeNetworking)
    → IsPlainRan
        (elim o [ none ↦ thrown n [] | some c ↦ ran (next_child c n).0 (next_child c n).1 ])
unfolding next_child
child-IsPlain none n = tt
child-IsPlain (some c) n = ground arith

child_data-IsPlain : (msg : List ℕ) (n : ZigbeeNetworking) → IsPlainRan (handle_child_data msg n)
unfolding handle_child_data
child_data-IsPlain [] n = tt
child_data-IsPlain (status ∷ rest) n = ground (arith, child-IsPlain (read_child_data rest) n)

security_state-IsPlain :
    (drawn : ℕ) (msg : List ℕ) (n : ZigbeeNetworking)
    → IsPlainRan (handle_security_state drawn msg n)
unfolding handle_security_state
security_state-IsPlain drawn [] n = tt
security_state-IsPlain drawn (status ∷ rest) n =
    ground (arith, length-network_parameters (parameters_to_form drawn n))

status-IsPlain : (msg : List ℕ) (n : ZigbeeNetworking) → IsPlainRan (status_only msg n)
status-IsPlain [] n = tt
status-IsPlain (status ∷ rest) n = tt

pub networking-IsPlain :
    (drawn cmd : ℕ) (msg : List ℕ) (n : ZigbeeNetworking)
    → IsPlainRan (handle_ezsp_rx_message drawn cmd msg n)
unfolding handle_ezsp_rx_message
networking-IsPlain drawn cmd msg n =
    ground
      (arith, child_data-IsPlain msg n, security_state-IsPlain drawn msg n, status-IsPlain msg n)

-- ===== src/LibMain/Config.antt =====
-- CLibEzspMain::stackInit (src/ezsp/lib-ezsp-main.cpp): the settings and policies that the adapter is
-- configured with, by the numbers of include/ezsp/ezsp-protocol/ezsp-enum.h.
use libezsp.Common.{ℕ, List, [], ◌∷◌, map}
use libezsp.Networking.{EzspConfig, EzspPolicy, stack_init}
use libezsp.Effects.{Effect}

abbrev pub config : ℕ × ℕ → EzspConfig
config (i, v) = record { id = i; value = v }

abbrev pub policy : ℕ × ℕ → EzspPolicy
policy (i, d) = record { id = i; decision = d }

-- The values are written in the order of the source, one line for each group of five.
abbrev pub stack_config : List (ℕ × ℕ)
stack_config =
    (0x02, 32)
    ∷ (0x03, 10)
    ∷ (0x04, 0)
    ∷ (0x05, 64)
    ∷ (0x06, 8)
    ∷ (0x07, 32)
    ∷ (0x08, 16)
    ∷ (0x0c, 2)
    ∷ (0x0d, 5)
    ∷ (0x10, 15)
    ∷ (0x11, 32)
    ∷ (0x12, 3000)
    ∷ (0x13, 5)
    ∷ (0x14, 20)
    ∷ (0x15, 0)
    ∷ (0x17, 0)
    ∷ (0x18, 0)
    ∷ (0x19, 0)
    ∷ (0x1a, 0)
    ∷ (0x1b, 6)
    ∷ (0x1c, 0)
    ∷ (0x1d, 0)
    ∷ (0x1e, 12)
    ∷ (0x1f, 1600)
    ∷ (0x20, 3)
    ∷ (0x21, 60)
    ∷ (0x22, 1)
    ∷ (0x24, 0)
    ∷ (0x2a, 0)
    ∷ (0x2b, 15)
    ∷ (0x2c, 0)
    ∷ (0x2d, 1)
    ∷ (0x2e, 0)
    ∷ (0x2f, 0)
    ∷ (0x33, 1)
    ∷ (0x34, 8)
    ∷ (0x35, 10)
    ∷ (0x36, 300)
    ∷ (0x37, 1)
    ∷ (0x38, 600)
    ∷ (0x01, 0xff)
    ∷ []

abbrev pub stack_policy : List (ℕ × ℕ)
stack_policy = (0, 0x01) ∷ (4, 0x40) ∷ (1, 0x12) ∷ (3, 0x30) ∷ []

-- The commands of stackInit.
unfoldable pub stack_init_commands : List Effect
unfolding stack_init
stack_init_commands = stack_init (map config stack_config) (map policy stack_policy)

-- ===== src/Structs.antt =====
-- src/ezsp/ezsp-protocol/: the structures in the payloads of the EZSP messages. A structure is read
-- by `at()` on each of its bytes, which throws where the message is too short: `none`.
pub mod NetworkParameters
pub mod Adapter
pub mod SinkEntry
pub mod Pairing
pub mod RoundTrip
use libezsp.Common.{ℕ, zero, suc, List, [], ◌∷◌}

-- The byte at an index, where there is one.
unfoldable pub byte : List ℕ → ℕ → ℕ
byte [] i = 0
byte (b ∷ bs) zero = b
byte (b ∷ bs) (suc i) = byte bs i

-- `n` bytes from an index on.
unfoldable pub bytes_at : List ℕ → ℕ → ℕ → List ℕ
unfolding byte
bytes_at raw i zero = []
bytes_at raw i (suc n) = byte raw i ∷ bytes_at raw (suc i) n

-- ===== src/Ash/Stuffing.antt =====
-- Byte stuffing of src/ezsp/ashv2-codec.cpp (AshCodec::addByteStuffing, removeByteStuffing).
pub mod Laws
use libezsp.Common.{ℕ, bit_and, bit_or, ◌==◌, if◌then◌else◌, u8, Bool, true, false}
use libezsp.Common.{List, [], ◌∷◌, ◌++◌}

abbrev pub ash_cancel_byte : ℕ
ash_cancel_byte = 0x1a

abbrev pub ash_flag_byte : ℕ
ash_flag_byte = 0x7e

abbrev pub ash_substitute_byte : ℕ
ash_substitute_byte = 0x18

abbrev pub ash_xon_byte : ℕ
ash_xon_byte = 0x11

abbrev pub ash_off_byte : ℕ
ash_off_byte = 0x13

-- The `switch` on one byte: what is pushed to the result.
unfoldable pub stuff_byte : ℕ → List ℕ
stuff_byte b =
    if b == 0x7e
    then 0x7d ∷ 0x5e ∷ []
    else if b == 0x7d
    then 0x7d ∷ 0x5d ∷ []
    else if b == 0x11
    then 0x7d ∷ 0x31 ∷ []
    else if b == 0x13
    then 0x7d ∷ 0x33 ∷ []
    else if b == 0x18
    then 0x7d ∷ 0x38 ∷ []
    else if b == 0x1a
    then 0x7d ∷ 0x3a ∷ []
    else b ∷ []

-- The `for` loop of addByteStuffing.
unfoldable pub stuff_all : List ℕ → List ℕ
stuff_all [] = []
stuff_all (b ∷ bs) = stuff_byte b ++ stuff_all bs

unfoldable pub add_byte_stuffing : List ℕ → List ℕ
add_byte_stuffing i_data = stuff_all i_data ++ (0x7e ∷ [])

-- What an escaped byte stands for: bit 5 is inverted.
unfoldable pub unescape : ℕ → ℕ
unescape b = if bit_and b 0x20 == 0 then u8 (bit_or b 0x20) else u8 (bit_and b 0xdf)

-- The `for` loop of removeByteStuffing, with its local `escape`.
unfoldable pub remove_loop : Bool → List ℕ → List ℕ
unfolding unescape
remove_loop escape [] = []
remove_loop true (b ∷ bs) = unescape b ∷ remove_loop false bs
remove_loop false (b ∷ bs) =
    let after_escape = remove_loop true bs in
    let kept = b ∷ remove_loop false bs in if b == 0x7d then after_escape else kept

unfoldable pub remove_byte_stuffing : List ℕ → List ℕ
remove_byte_stuffing i_data = remove_loop false i_data

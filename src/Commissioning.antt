-- ===== src/Commissioning.antt =====
-- src/ezsp/zbmessage/gpd-commissioning-command-payload.cpp: the payload of the command by which a
-- Green Power device asks to be commissioned. What is not read yet is kept as a list, in place of the
-- index `l_idx`. The AES cipher is a parameter: a key and a block give a block.
pub mod Length
use libezsp.Common.{ℕ, zero, suc, ◌!=◌, bit_and, bit_xor, if◌then◌else◌, Bool, true, false}
use libezsp.Common.{List, [], ◌∷◌, ◌++◌, Option, none, some, replicate}
use libezsp.ByteManip.{dble_u8_to_u16, quad_u8_to_u32}
use libezsp.ByteManip.{u32_get_byte0, u32_get_byte1, u32_get_byte2, u32_get_byte3}
use libezsp.GpStruct.{SinkTableOption}

abbrev pub Aes : Type 0
Aes = List ℕ → List ℕ → List ℕ

pub record CommissioningPayload : Type 0 where
  pub device_id : ℕ
  pub options : ℕ
  pub extended_options : ℕ
  pub key : List ℕ
  pub key_mic : ℕ
  pub out_frame_counter : ℕ
  pub app_information : ℕ
  pub manufacturer_id : ℕ
  pub model_id : ℕ
  pub gpd_command_list : List ℕ
  pub gpd_cluster_list : List ℕ

-- `n` bytes and what follows them.
unfoldable pub split_bytes : ℕ → List ℕ → Option (List ℕ × List ℕ)
split_bytes zero bs = some ([], bs)
split_bytes (suc n) [] = none
split_bytes (suc n) (b ∷ bs) = elim (split_bytes n bs) [
  | none ↦ none
  | some (front, rest) ↦ some (b ∷ front, rest)
]

unfoldable pub read_byte : List ℕ → Option (ℕ × List ℕ)
read_byte (b ∷ rest) = some (b, rest)
read_byte _ = none

unfoldable pub read_word : List ℕ → Option (ℕ × List ℕ)
read_word (b0 ∷ b1 ∷ rest) = some (dble_u8_to_u16 b1 b0, rest)
read_word _ = none

unfoldable pub read_dword : List ℕ → Option (ℕ × List ℕ)
read_dword (b0 ∷ b1 ∷ b2 ∷ b3 ∷ rest) = some (quad_u8_to_u32 b3 b2 b1 b0, rest)
read_dword _ = none

unfoldable pub read_counted : List ℕ → Option (List ℕ × List ℕ)
unfolding split_bytes
read_counted (n ∷ rest) = split_bytes n rest
read_counted _ = none

-- A field that is there where a flag is set.
abbrev pub present {ℓ} :
    {A : Type ℓ} → Bool → A → (List ℕ → Option (A × List ℕ)) → List ℕ → Option (A × List ℕ)
present true default read bs = read bs
present false default read bs = some (default, bs)

abbrev pub flag : ℕ → ℕ → Bool
flag mask b = bit_and b mask != 0

infixl 10 ◌>>=◌
abbrev pub ◌>>=◌ {ℓ κ} : {A : Type ℓ} {B : Type κ} → Option A → (A → Option B) → Option B
none >>= f = none
some a >>= f = f a

unfoldable pub xor_bytes : List ℕ → List ℕ → List ℕ
xor_bytes (x ∷ xs) (y ∷ ys) = bit_xor x y ∷ xor_bytes xs ys
xor_bytes _ _ = []

abbrev pub tc_lk : List ℕ
tc_lk =
    0x5a ∷ 0x69 ∷ 0x67 ∷ 0x42 ∷ 0x65 ∷ 0x65 ∷ 0x41 ∷ 0x6c ∷ 0x6c ∷ 0x69 ∷ 0x61 ∷ 0x6e ∷ 0x63 ∷ 0x65
    ∷ 0x30 ∷ 0x39 ∷ []

-- memcpy of the source ID, on a little-endian host.
abbrev pub source_bytes : ℕ → List ℕ
source_bytes i = u32_get_byte0 i ∷ u32_get_byte1 i ∷ u32_get_byte2 i ∷ u32_get_byte3 i ∷ []

unfoldable pub key_nonce : ℕ → List ℕ
key_nonce i_src_id =
    (0x01 ∷ [])
    ++ source_bytes i_src_id
    ++ source_bytes i_src_id
    ++ source_bytes i_src_id
    ++ (0x05 ∷ 0x00 ∷ 0x01 ∷ [])

-- The key under the cipher stream of the nonce.
unfoldable pub decrypt_key : Aes → ℕ → List ℕ → List ℕ
unfolding xor_bytes key_nonce
decrypt_key aes i_src_id key =
    xor_bytes (aes tc_lk (xor_bytes (replicate 16 0) (key_nonce i_src_id))) key

-- The key and its MIC.
unfoldable pub read_key : Aes → ℕ → ℕ → List ℕ → Option ((List ℕ × ℕ) × List ℕ)
unfolding split_bytes decrypt_key read_dword
read_key aes i_src_id ext bs = do
  (key, rest) ← split_bytes 16 bs
  if flag 0x40 ext
      then (do (mic, rest') ← read_dword rest; some ((decrypt_key aes i_src_id key, mic), rest'))
      else some ((key, 0), rest)

-- The constructor; `none` where `at()` throws.
unfoldable pub read_commissioning : Aes → List ℕ → ℕ → Option CommissioningPayload
unfolding read_byte read_word read_dword read_counted read_key
read_commissioning aes raw i_src_id = do
  (device_id, r0) ← read_byte raw
  (options, r1) ← read_byte r0
  (ext, r2) ← present (flag 0x80 options) 0 read_byte r1
  (keys, r3) ← present (flag 0x20 ext) (replicate 16 0, 0) (read_key aes i_src_id ext) r2
  (counter, r4) ← present (flag 0x80 ext) 0 read_dword r3
  (info, r5) ← present (flag 0x04 options) 0 read_byte r4
  (manufacturer, r6) ← present (flag 0x01 info) 0 read_word r5
  (model, r7) ← present (flag 0x02 info) 0 read_word r6
  (commands, r8) ← present (flag 0x04 info) [] read_counted r7
  some (record {
    device_id = device_id;
    options = options;
    extended_options = ext;
    key = keys.0;
    key_mic = keys.1;
    out_frame_counter = counter;
    app_information = info;
    manufacturer_id = manufacturer;
    model_id = model;
    gpd_command_list = commands;
    gpd_cluster_list = if flag 0x08 info then r8 else [];
  })

-- CEmberGpSinkTableOption of an application ID and a commissioning payload.
unfoldable pub commissioning_option : ℕ → CommissioningPayload → SinkTableOption
commissioning_option i_application_id p = record {
  application_id = i_application_id;
  communication_mode = 1;
  sequence_number_capabilities = flag 0x01 p.options;
  rx_on_capability = flag 0x02 p.options;
  fixed_location = flag 0x40 p.options;
  assigned_alias = false;
  security_use = flag 0x80 p.options;
}

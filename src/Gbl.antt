-- ===== src/Gbl.antt =====
-- src/spi/gbl-info-extractor/get_gbl_version.c: the command that prints the version of the firmware in
-- a GBL image, from its opened file on. The file is its bytes; what is read and skipped is taken off
-- their front, and nothing can be read behind the end.
pub mod Version
use libezsp.Common.{
  ℕ, zero, suc, ◌+◌, ◌-◌, ◌*◌, ◌/◌, ◌%◌, ◌^◌, ◌==◌, ◌!=◌, ltb, leb, if◌then◌else◌, bit_or, bit_and,
}
use libezsp.Common.{
  List, [], ◌∷◌, ◌++◌, Option, none, some, length, take, drop, codes, ◌>>>◌, u8, Bool, true, false,
}
use libezsp.Structs.{byte}

-- The bytes of the argument as they lie in memory.
unfoldable pub letohl : ℕ → ℕ → ℕ → ℕ → ℕ
letohl b0 b1 b2 b3 =
    let r1 = bit_or (b3 * 2 ^ 8 % 2 ^ 32) b2 in
    let r2 = bit_or (r1 * 2 ^ 8 % 2 ^ 32) b1 in bit_or (r2 * 2 ^ 8 % 2 ^ 32) b0

unfoldable pub letohs : ℕ → ℕ → ℕ
letohs b0 b1 = bit_or (b1 * 2 ^ 8 % 2 ^ 16) b0

abbrev pub ebl_tag_id_application : ℕ
ebl_tag_id_application = 0xf40a0af4

-- sizeof(ApplicationData_t), and the size of the buffer that takes the tag.
abbrev pub application_data_size : ℕ
application_data_size = 28

abbrev pub gbl_info_tag_buf_size : ℕ
gbl_info_tag_buf_size = 64

unfoldable pub gbl_tag_id_to_str : ℕ → List ℕ
gbl_tag_id_to_str tag_id =
    if tag_id == 0xe35050e3
    then codes "EBL_IMAGE_MAGIC_WORD"
    else if tag_id == 0x03000000
    then codes "EBL_COMPATIBILITY_MAJOR_VERSION"
    else if tag_id == 0x00000200
    then codes "EBLV2_COMPATIBILITY_MAJOR_VERSION"
    else if tag_id == 0x03a617eb
    then codes "EBL_TAG_ID_HEADER_V3"
    else if tag_id == 0xf50909f5
    then codes "EBL_TAG_ID_BOOTLOADER"
    else if tag_id == ebl_tag_id_application
    then codes "EBL_TAG_ID_APPLICATION"
    else if tag_id == 0xf60808f6
    then codes "EBL_TAG_ID_METADATA"
    else if tag_id == 0xfe0101fe
    then codes "EBL_TAG_ID_PROG"
    else if tag_id == 0xfd0303fd
    then codes "EBL_TAG_ID_ERASEPROG"
    else if tag_id == 0xfc0404fc
    then codes "EBL_TAG_ID_END"
    else if tag_id == 0x5ea617eb
    then codes "EBL_TAG_ID_SE_UPGRADE"
    else if tag_id == 0xfb0505fb
    then codes "EBL_TAG_ID_ENC_HEADER"
    else if tag_id == 0xfa0606fa
    then codes "EBL_TAG_ID_ENC_INIT"
    else if tag_id == 0xf90707f9
    then codes "EBL_TAG_ID_ENC_EBL_DATA"
    else if tag_id == 0xf70909f7
    then codes "EBL_TAG_ID_ENC_MAC"
    else if tag_id == 0xf70a0af7
    then codes "EBL_TAG_ID_SIGNATURE_ECDSA_P256"
    else if tag_id == 0xf30b0bf3
    then codes "EBL_TAG_ID_CERTIFICATE_ECDSA_P256"
    else if tag_id == 0x00000000
    then codes "EBL_TYPE_NONE"
    else if tag_id == 0x00000001
    then codes "EBL_TYPE_ENCRYPTION_AESCCM"
    else if tag_id == 0x00000100
    then codes "EBL_TYPE_SIGNATURE_ECDSA"
    else codes "(unknown)"

-- A digit of hexdump_buffer.
abbrev pub nibble_digit : ℕ → ℕ
nibble_digit nibble = if leb nibble 9 then u8 (nibble + b'0') else u8 (nibble + (b'a' - 10))

abbrev pub dump_byte : ℕ → List ℕ
dump_byte b = nibble_digit (b >>> 4) ∷ nibble_digit (bit_and b 0x0f) ∷ []

-- The bytes behind the first one.
abbrev pub dump_rest : List ℕ → List ℕ
dump_rest [] = b'\n' ∷ []
dump_rest (b ∷ buffer) = b' ' ∷ (dump_byte b ++ dump_rest buffer)

unfoldable pub hexdump_buffer : List ℕ → List ℕ
hexdump_buffer [] = b'\n' ∷ []
hexdump_buffer (b ∷ buffer) = dump_byte b ++ dump_rest buffer

-- How the program ends: it has printed a version, or it fails with a message.
pub data Ending : Type 0 where
  version : ℕ → Ending
  failed_next_tag info_too_large failed_payload info_too_short : Ending

-- The tag of the application's data; what is longer than the structure is left aside.
unfoldable pub application_tag : ℕ → List ℕ → Ending
application_tag gbl_tag_length rest =
    if ltb gbl_info_tag_buf_size gbl_tag_length
    then info_too_large
    else if length (take gbl_tag_length rest) != gbl_tag_length
    then failed_payload
    else if ltb gbl_tag_length application_data_size
    then info_too_short
    else version (letohl (byte rest 4) (byte rest 5) (byte rest 6) (byte rest 7))

-- A tag: its identifier, its length, and what follows it.
unfoldable pub read_tag : List ℕ → Option (ℕ × ℕ × List ℕ)
read_tag s =
    if ltb (length s) 8
    then none
    else some (
      letohl (byte s 0) (byte s 1) (byte s 2) (byte s 3),
      letohl (byte s 4) (byte s 5) (byte s 6) (byte s 7),
      drop 8 s,
    )

-- The switch over a tag, and the loop, on fuel.
abbrev pub after_tag : Option (ℕ × ℕ × List ℕ) → (List ℕ → Option Ending) → Option Ending
after_tag none further = some failed_next_tag
after_tag (some (gbl_tag_id, gbl_tag_length, rest)) further =
    if gbl_tag_id == ebl_tag_id_application
    then some (application_tag gbl_tag_length rest)
    else further (drop gbl_tag_length rest)

unfoldable pub scan_tags : ℕ → List ℕ → Option Ending
scan_tags zero s = none
scan_tags (suc n) s = after_tag (read_tag s) (scan_tags n)

-- Each round takes at least eight bytes.
unfoldable pub get_gbl_version : List ℕ → Option Ending
unfolding scan_tags
get_gbl_version image = scan_tags (suc (length image)) image

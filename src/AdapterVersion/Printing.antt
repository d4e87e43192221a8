-- ===== src/AdapterVersion/Printing.antt =====
-- How EzspAdapterVersion (src/ezsp/ezsp-adapter-version.cpp) is printed: getFirmwareVersionAsString,
-- getStackVersionAsString and toString, and that the numbers can be read back.
use libezsp.Common.{
  ℕ, zero, suc, ◌+◌, ◌-◌, ◌*◌, ◌/◌, ◌%◌, ◌<◌, ◌==◌, ◌!=◌, ◌||◌, ltb, if◌then◌else◌,
}
use libezsp.Common.{◌≡◌, ◌∙◌, refl, ap, arith, List, [], ◌∷◌, ◌++◌, codes}
use libezsp.Common.{sym, Bool-cases, inl, inr, if_true, if_false}
use mathlib.Core.List.{append_assoc, append-nil}
use libezsp.AdapterVersion.{EzspAdapterVersion, manufacturer_unknown, manufacturer_legrand}

-- A digit of a stream that is in base 10 or 16.
abbrev pub digit_char : ℕ → ℕ
digit_char d = if ltb d 10 then d + b'0' else d + (b'a' - 10)

-- A number on a stream, in at most that many rounds; a round for each unit and one more is enough.
unfoldable pub number_rounds : ℕ → ℕ → ℕ → List ℕ
number_rounds zero base n = []
number_rounds (suc k) base n =
    let rest = number_rounds k base (n / base) in
    if ltb n base then digit_char n ∷ [] else rest ++ (digit_char (n % base) ∷ [])

unfoldable pub number_text : ℕ → ℕ → List ℕ
unfolding number_rounds
number_text base n = number_rounds (suc n) base n

abbrev pub decimal : ℕ → List ℕ
decimal n = number_text 10 n

-- Four digits in base 16, with `setw(4)` and `setfill('0')`, of a 16-bit number.
abbrev pub hex_word : ℕ → List ℕ
hex_word w =
    digit_char (w / 4096 % 16)
    ∷ digit_char (w / 256 % 16)
    ∷ digit_char (w / 16 % 16)
    ∷ digit_char (w % 16)
    ∷ []

unfoldable pub get_firmware_version_as_string : EzspAdapterVersion → List ℕ
unfolding number_text
get_firmware_version_as_string v =
    decimal v.xncp_adapter_major_version
    ++ (b'.'
        ∷ (decimal v.xncp_adapter_minor_version
            ++ (b'.' ∷ decimal v.xncp_adapter_revision_version)))

unfoldable pub get_stack_version_as_string : EzspAdapterVersion → List ℕ
unfolding number_text
get_stack_version_as_string v =
    decimal v.ezsp_stack_major_version
    ++ (b'.'
        ∷ (decimal v.ezsp_stack_minor_version
            ++ (b'.'
                ∷ (decimal v.ezsp_stack_revision_version
                    ++ (b'.' ∷ decimal v.ezsp_stack_bugfix_version)))))

abbrev pub manufacturer_text : EzspAdapterVersion → List ℕ
manufacturer_text v =
    if v.xncp_manufacturer_id != manufacturer_unknown
    then codes "[Manufacturer: 0x"
      ++ hex_word v.xncp_manufacturer_id
      ++ (if v.xncp_manufacturer_id == manufacturer_legrand then codes " (LEGRAND)" else [])
      ++ codes "]"
    else []

abbrev pub protocol_text : EzspAdapterVersion → List ℕ
protocol_text v =
    if v.ezsp_protocol_version != 0
    then codes "[EZSPv"
      ++ decimal v.ezsp_protocol_version
      ++ codes " running stack type "
      ++ decimal v.ezsp_stack_type
      ++ (if v.ezsp_stack_type == 2 then codes " (mesh)" else [])
      ++ codes "]"
    else []

abbrev pub stack_text : EzspAdapterVersion → List ℕ
stack_text v =
    if (v.ezsp_stack_major_version != 0)
      || (v.ezsp_stack_minor_version != 0)
      || (v.ezsp_stack_revision_version != 0)
      || (v.ezsp_stack_bugfix_version != 0)
    then codes "[stack v" ++ get_stack_version_as_string v ++ codes "]"
    else []

-- The stream is in base 16 since the manufacturer, unless a protocol version has set it to 10.
abbrev pub hardware_text : EzspAdapterVersion → List ℕ
hardware_text v =
    if v.xncp_manufacturer_id == manufacturer_legrand
    then if (v.xncp_adapter_hardware_version != 0)
        || (v.xncp_adapter_major_version != 0)
        || (v.xncp_adapter_minor_version != 0)
        || (v.xncp_adapter_revision_version != 0)
      then codes "[hw v"
        ++ number_text (if v.ezsp_protocol_version != 0 then 10 else 16)
            v.xncp_adapter_hardware_version
        ++ codes ", fw v"
        ++ get_firmware_version_as_string v
        ++ codes "]"
      else []
    else []

unfoldable pub to_string : EzspAdapterVersion → List ℕ
unfolding get_stack_version_as_string get_firmware_version_as_string number_text
to_string v =
    codes "EzspAdapterVersion : { "
    ++ manufacturer_text v
    ++ protocol_text v
    ++ stack_text v
    ++ hardware_text v
    ++ codes " }"

-- Numbers in base 10 between dots; the first argument is what has been read of the first one.
unfoldable pub read_numbers : ℕ → List ℕ → List ℕ
read_numbers n [] = n ∷ []
read_numbers n (c ∷ s) =
    let next = read_numbers 0 s in
    let more = read_numbers (n * 10 + (c - b'0')) s in if c == b'.' then n ∷ next else more

read_digit :
    (n d : ℕ) (s : List ℕ)
    → d < 10
    → read_numbers n (digit_char d ∷ s) ≡ read_numbers (n * 10 + d) s
unfolding read_numbers
read_digit n d s small = ground arith

read_numbers-number_rounds :
    (k n : ℕ) (s : List ℕ) → n < k → read_numbers 0 (number_rounds k 10 n ++ s) ≡ read_numbers n s
unfolding number_rounds
read_numbers-number_rounds zero n s enough = absurd (omega arith)
read_numbers-number_rounds (suc k) n s enough =
    let rest = number_rounds k 10 (n / 10) in
    let last : List ℕ = digit_char (n % 10) ∷ [] in
    elim (Bool-cases (ltb n 10)) [
      | inl small ↦
          let whole : 0 * 10 + n ≡ n = omega arith in
          ap (λ t. read_numbers 0 (t ++ s)) (if_true (rest ++ last) small)
          ∙ read_digit 0 n s (ground arith)
          ∙ ap (λ m. read_numbers m s) whole
      | inr large ↦
          let joined : n / 10 * 10 + n % 10 ≡ n = omega arith in
          ap (λ t. read_numbers 0 (t ++ s)) (if_false (digit_char n ∷ []) large)
          ∙ ap (read_numbers 0) (append_assoc rest last s)
          ∙ read_numbers-number_rounds k (n / 10) (digit_char (n % 10) ∷ s) (ground arith)
          ∙ read_digit (n / 10) (n % 10) s (omega arith)
          ∙ ap (λ m. read_numbers m s) joined
    ]

read_dot : (n : ℕ) (s : List ℕ) → read_numbers n (b'.' ∷ s) ≡ n ∷ read_numbers 0 s
unfolding read_numbers
read_dot n s = refl

read_number : (n : ℕ) (s : List ℕ) → read_numbers 0 (decimal n ++ s) ≡ read_numbers n s
unfolding number_text
read_number n s = read_numbers-number_rounds (suc n) n s (omega arith)

read_part : (n : ℕ) (s : List ℕ) → read_numbers 0 (decimal n ++ (b'.' ∷ s)) ≡ n ∷ read_numbers 0 s
read_part n s = read_number n (b'.' ∷ s) ∙ read_dot n s

read_end : (n : ℕ) → read_numbers 0 (decimal n) ≡ n ∷ []
unfolding read_numbers
read_end n = ap (read_numbers 0) (sym (append-nil (decimal n))) ∙ read_number n []

-- The printed versions of the stack and of the firmware can be read back, whatever their numbers are.
pub version_strings_read_back :
    (v : EzspAdapterVersion)
    → (read_numbers 0 (get_stack_version_as_string v)
        ≡ v.ezsp_stack_major_version ∷ v.ezsp_stack_minor_version ∷ v.ezsp_stack_revision_version
          ∷ v.ezsp_stack_bugfix_version ∷ [])
      × (read_numbers 0 (get_firmware_version_as_string v)
          ≡ v.xncp_adapter_major_version ∷ v.xncp_adapter_minor_version
            ∷ v.xncp_adapter_revision_version ∷ [])
unfolding get_stack_version_as_string get_firmware_version_as_string
version_strings_read_back v =
    let s : ℕ → List ℕ → List ℕ = λ n rest. n ∷ rest in
    (
      read_part v.ezsp_stack_major_version _
          ∙ ap (s v.ezsp_stack_major_version) (
              read_part v.ezsp_stack_minor_version _
              ∙ ap (s v.ezsp_stack_minor_version) (
                  read_part v.ezsp_stack_revision_version _
                  ∙ ap (s v.ezsp_stack_revision_version) (read_end v.ezsp_stack_bugfix_version))),
      read_part v.xncp_adapter_major_version _
          ∙ ap (s v.xncp_adapter_major_version) (
              read_part v.xncp_adapter_minor_version _
              ∙ ap (s v.xncp_adapter_minor_version) (read_end v.xncp_adapter_revision_version)),
    )

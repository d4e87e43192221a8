-- ===== src/Runs/Bytes.antt =====
-- The functions on bytes (include/ezsp/byte-manip.h, src/ezsp/ashv2-codec.cpp,
-- src/ezsp/ezsp-adapter-version.cpp) on concrete numbers.
use libezsp.Common.{◌≡◌, refl, arith, none, replicate, negsuc}
use libezsp.Ash.Randomize.{randomize_loop}
use libezsp.Ash.Randomize.Laws.{data_randomize_endless}
use libezsp.AdapterVersion.{EzspAdapterVersion, new_adapter_version, set_ezsp_version_info}
use libezsp.AdapterVersion.{cmp, manufacturer_legrand}
use libezsp.Common.{[], ◌∷◌, codes}
use libezsp.AdapterVersion.Printing.{get_stack_version_as_string, get_firmware_version_as_string}
use libezsp.AdapterVersion.Printing.{to_string, number_text, number_rounds, read_numbers}
use libezsp.AdapterVersion.Printing.{version_strings_read_back}
use libezsp.AdapterVersion.Order.{cmp-set_ezsp_version_info}

data_randomize_endless_example : randomize_loop 1000 (replicate 300 0) 0 0x42 ≡ none
data_randomize_endless_example =
    data_randomize_endless 1000 (replicate 300 0) 0 0x42 (omega arith) (omega arith)

cmp-set_ezsp_version_info_example :
    cmp
      (set_ezsp_version_info 0x6740 8 2 new_adapter_version)
      (set_ezsp_version_info 0x6810 8 2 new_adapter_version)
    ≡ negsuc 0
unfolding new_adapter_version
cmp-set_ezsp_version_info_example =
    cmp-set_ezsp_version_info 0x6740 0x6810 8 2 new_adapter_version new_adapter_version
      (omega arith) (omega arith) refl

-- Version 6.10.3.0 of the stack, and 1.20.0 of the firmware.
abbrev printed : EzspAdapterVersion
printed = record new_adapter_version {
  ezsp_stack_major_version = 6;
  ezsp_stack_minor_version = 10;
  ezsp_stack_revision_version = 3;
  xncp_adapter_major_version = 1;
  xncp_adapter_minor_version = 20;
}

version_strings_read_back_example :
    (read_numbers 0 (get_stack_version_as_string printed) ≡ 6 ∷ 10 ∷ 3 ∷ 0 ∷ [])
    × (read_numbers 0 (get_firmware_version_as_string printed) ≡ 1 ∷ 20 ∷ 0 ∷ [])
unfolding new_adapter_version
version_strings_read_back_example = version_strings_read_back printed

-- With an unknown protocol version, the version 16 of the hardware is printed as 10.
abbrev hardware_16 : EzspAdapterVersion
hardware_16 = record new_adapter_version {
  xncp_manufacturer_id = manufacturer_legrand;
  xncp_adapter_hardware_version = 16;
}

printed_hardware :
    to_string hardware_16
    ≡ codes "EzspAdapterVersion : { [Manufacturer: 0x1021 (LEGRAND)][hw v10, fw v0.0.0] }"
unfolding to_string new_adapter_version get_firmware_version_as_string number_text number_rounds
printed_hardware = refl

-- ===== src/AdapterVersion.antt =====
-- src/ezsp/ezsp-adapter-version.cpp: what is known of the firmware of an EZSP adapter, and the order
-- on these versions.
pub mod Order
pub mod Printing
use libezsp.Common.{ℕ, ◌==◌, ◌!=◌, ltb, if◌then◌else◌, not, ◌&&◌, ◌||◌, Bool}
use libezsp.Common.{ℤ, pos, negsuc, is_zero, is_positive, is_negative}
use libezsp.ByteManip.{u8_get_hi_nibble, u8_get_lo_nibble, u16_get_hi_u8, u16_get_lo_u8}

abbrev pub manufacturer_unknown : ℕ
manufacturer_unknown = 0

abbrev pub manufacturer_legrand : ℕ
manufacturer_legrand = 0x1021

pub record EzspAdapterVersion : Type 0 where
  pub ezsp_protocol_version : ℕ
  pub ezsp_stack_type : ℕ
  pub ezsp_stack_major_version : ℕ
  pub ezsp_stack_minor_version : ℕ
  pub ezsp_stack_revision_version : ℕ
  pub ezsp_stack_bugfix_version : ℕ
  pub xncp_manufacturer_id : ℕ
  pub xncp_adapter_hardware_version : ℕ
  pub xncp_adapter_major_version : ℕ
  pub xncp_adapter_minor_version : ℕ
  pub xncp_adapter_revision_version : ℕ

unfoldable pub new_adapter_version : EzspAdapterVersion
new_adapter_version = record {
  ezsp_protocol_version = 0;
  ezsp_stack_type = 0;
  ezsp_stack_major_version = 0;
  ezsp_stack_minor_version = 0;
  ezsp_stack_revision_version = 0;
  ezsp_stack_bugfix_version = 0;
  xncp_manufacturer_id = manufacturer_unknown;
  xncp_adapter_hardware_version = 0;
  xncp_adapter_major_version = 0;
  xncp_adapter_minor_version = 0;
  xncp_adapter_revision_version = 0;
}

-- setEzspVersionInfo of one argument.
unfoldable pub set_stack_version : ℕ → EzspAdapterVersion → EzspAdapterVersion
set_stack_version ezsp_stack_version v = record v {
  ezsp_stack_major_version = u8_get_hi_nibble (u16_get_hi_u8 ezsp_stack_version);
  ezsp_stack_minor_version = u8_get_lo_nibble (u16_get_hi_u8 ezsp_stack_version);
  ezsp_stack_revision_version = u8_get_hi_nibble (u16_get_lo_u8 ezsp_stack_version);
  ezsp_stack_bugfix_version = u8_get_lo_nibble (u16_get_lo_u8 ezsp_stack_version);
}

-- setEzspVersionInfo of three arguments.
unfoldable pub set_ezsp_version_info : ℕ → ℕ → ℕ → EzspAdapterVersion → EzspAdapterVersion
set_ezsp_version_info ezsp_stack_version ezsp_protocol_version ezsp_stack_type v =
    record (set_stack_version ezsp_stack_version v) {
      ezsp_protocol_version = ezsp_protocol_version;
      ezsp_stack_type = ezsp_stack_type;
    }

unfoldable pub set_xncp_data : ℕ → ℕ → EzspAdapterVersion → EzspAdapterVersion
set_xncp_data xncp_manufacturer_id xncp_version_number v = record v {
  xncp_manufacturer_id = xncp_manufacturer_id;
  xncp_adapter_hardware_version = u8_get_hi_nibble (u16_get_hi_u8 xncp_version_number);
  xncp_adapter_major_version = u8_get_lo_nibble (u16_get_hi_u8 xncp_version_number);
  xncp_adapter_minor_version = u8_get_hi_nibble (u16_get_lo_u8 xncp_version_number);
  xncp_adapter_revision_version = u8_get_lo_nibble (u16_get_lo_u8 xncp_version_number);
}

-- `if (l > r) return 1; else if (l < r) return -1;`, and what follows it.
abbrev pub cmp_then : ℕ → ℕ → ℤ → ℤ
cmp_then l r rest = if ltb r l then pos 1 else if ltb l r then negsuc 0 else rest

-- The same behind the test that both numbers are known, that is not 0.
abbrev pub cmp_known_then : ℕ → ℕ → ℤ → ℤ
cmp_known_then l r rest = if (l != 0) && (r != 0) then cmp_then l r rest else rest

-- The branch of cmp for two adapters from Legrand.
unfoldable pub cmp_xncp : EzspAdapterVersion → EzspAdapterVersion → ℤ
cmp_xncp lhs rhs = cmp_then lhs.xncp_adapter_major_version rhs.xncp_adapter_major_version (
    cmp_then lhs.xncp_adapter_minor_version rhs.xncp_adapter_minor_version
      (cmp_then lhs.xncp_adapter_revision_version rhs.xncp_adapter_revision_version (pos 0)))

-- The other branch.
unfoldable pub cmp_stack : EzspAdapterVersion → EzspAdapterVersion → ℤ
cmp_stack lhs rhs = cmp_then lhs.ezsp_stack_major_version rhs.ezsp_stack_major_version (
    cmp_then lhs.ezsp_stack_minor_version rhs.ezsp_stack_minor_version (
      cmp_then lhs.ezsp_stack_revision_version rhs.ezsp_stack_revision_version
        (cmp_then lhs.ezsp_stack_bugfix_version rhs.ezsp_stack_bugfix_version (pos 0))))

unfoldable pub cmp : EzspAdapterVersion → EzspAdapterVersion → ℤ
cmp lhs rhs = cmp_known_then lhs.ezsp_protocol_version rhs.ezsp_protocol_version (
    cmp_known_then lhs.ezsp_stack_type rhs.ezsp_stack_type (
      if (lhs.xncp_manufacturer_id == manufacturer_legrand)
        && (rhs.xncp_manufacturer_id == manufacturer_legrand)
      then cmp_xncp lhs rhs
      else cmp_stack lhs rhs))

unfoldable pub version_eq : EzspAdapterVersion → EzspAdapterVersion → Bool
version_eq lhs rhs = is_zero (cmp lhs rhs)

unfoldable pub version_ne : EzspAdapterVersion → EzspAdapterVersion → Bool
version_ne lhs rhs = not (is_zero (cmp lhs rhs))

unfoldable pub version_gt : EzspAdapterVersion → EzspAdapterVersion → Bool
version_gt lhs rhs = is_positive (cmp lhs rhs)

unfoldable pub version_ge : EzspAdapterVersion → EzspAdapterVersion → Bool
version_ge lhs rhs = is_positive (cmp lhs rhs) || is_zero (cmp lhs rhs)

unfoldable pub version_lt : EzspAdapterVersion → EzspAdapterVersion → Bool
version_lt lhs rhs = is_negative (cmp lhs rhs)

unfoldable pub version_le : EzspAdapterVersion → EzspAdapterVersion → Bool
version_le lhs rhs = is_negative (cmp lhs rhs) || is_zero (cmp lhs rhs)

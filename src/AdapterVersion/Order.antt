-- ===== src/AdapterVersion/Order.antt =====
-- The order that EzspAdapterVersion::cmp and the comparison operators give.
use libezsp.Common.{ℕ, ◌/◌, ◌%◌, ◌≡◌, ◌↔◌, arith, IsU16, Bool, true, false, not}
use libezsp.Common.{pos, neg, ◌==◌, ◌&&◌}
use libezsp.ByteManip.Join.{hi_nibble, lo_nibble, u16_hi, u16_lo}
use libezsp.ByteManip.{u16_get_hi_u8, u16_get_lo_u8, u8_get_hi_nibble, u8_get_lo_nibble}
use libezsp.AdapterVersion.{EzspAdapterVersion, cmp, cmp_xncp, cmp_stack, cmp_then}
use libezsp.AdapterVersion.{
  set_stack_version, set_ezsp_version_info, set_xncp_data, manufacturer_legrand,
}
use libezsp.AdapterVersion.{version_eq, version_ne, version_gt, version_ge, version_lt, version_le}

cmp_xncp-neg : (a b : EzspAdapterVersion) → cmp_xncp b a ≡ neg (cmp_xncp a b)
unfolding cmp_xncp
cmp_xncp-neg a b = ground arith

cmp_stack-neg : (a b : EzspAdapterVersion) → cmp_stack b a ≡ neg (cmp_stack a b)
unfolding cmp_stack
cmp_stack-neg a b = ground arith

-- Comparing the other way round gives the opposite sign, whatever is known of the two adapters.
pub cmp-neg : (a b : EzspAdapterVersion) → cmp b a ≡ neg (cmp a b)
unfolding cmp
cmp-neg a b = ground (arith, cmp_xncp-neg a b, cmp_stack-neg a b)

-- The six operators agree: `a < b` is `b > a` and excludes `a >= b`, `a <= b` is `b >= a`, equality
-- is symmetric, is the negation of `!=`, and is `<=` in both directions.
pub version_operators :
    (a b : EzspAdapterVersion)
    → (version_lt a b ≡ version_gt b a)
      × (version_ge a b ≡ not (version_lt a b))
      × (version_le a b ≡ version_ge b a)
      × (version_eq a b ≡ version_eq b a)
      × (version_ne a b ≡ not (version_eq a b))
      × ((version_eq a b ≡ true) ↔ ((version_le a b ≡ true) × (version_le b a ≡ true)))
unfolding version_eq version_ne version_gt version_ge version_lt version_le
version_operators a b = ground (arith, cmp-neg a b)

nibbles :
    (w : ℕ)
    → IsU16 w
    → (u8_get_hi_nibble (u16_get_hi_u8 w) ≡ w / 4096)
      × (u8_get_lo_nibble (u16_get_hi_u8 w) ≡ w / 256 % 16)
      × (u8_get_hi_nibble (u16_get_lo_u8 w) ≡ w / 16 % 16)
      × (u8_get_lo_nibble (u16_get_lo_u8 w) ≡ w % 16)
nibbles w h = omega (
  arith,
  u16_hi w h,
  u16_lo w,
  hi_nibble (u16_get_hi_u8 w) (omega (arith, u16_hi w h)),
  hi_nibble (u16_get_lo_u8 w) (omega (arith, u16_lo w)),
  lo_nibble (u16_get_hi_u8 w),
  lo_nibble (u16_get_lo_u8 w),
)

cmp_nibbles :
    (x y : ℕ)
    → cmp_then (x / 4096) (y / 4096) (
        cmp_then
          (x / 256 % 16)
          (y / 256 % 16)
          (cmp_then (x / 16 % 16) (y / 16 % 16) (cmp_then (x % 16) (y % 16) (pos 0))))
      ≡ cmp_then x y (pos 0)
cmp_nibbles x y = ground arith

cmp_xncp_nibbles :
    (x y : ℕ)
    → cmp_then
        (x / 256 % 16)
        (y / 256 % 16)
        (cmp_then (x / 16 % 16) (y / 16 % 16) (cmp_then (x % 16) (y % 16) (pos 0)))
      ≡ cmp_then (x % 4096) (y % 4096) (pos 0)
cmp_xncp_nibbles x y = ground arith

abbrev are_legrand : EzspAdapterVersion → EzspAdapterVersion → Bool
are_legrand a b =
    (a.xncp_manufacturer_id == manufacturer_legrand)
    && (b.xncp_manufacturer_id == manufacturer_legrand)

-- Two adapters of the same protocol and stack type that are not both Legrand's are ordered as the
-- 16-bit stack version words that they reported.
pub cmp-set_ezsp_version_info :
    (x y protocol stack_type : ℕ) (a b : EzspAdapterVersion)
    → IsU16 x
    → IsU16 y
    → are_legrand a b ≡ false
    → cmp
        (set_ezsp_version_info x protocol stack_type a)
        (set_ezsp_version_info y protocol stack_type b)
      ≡ cmp_then x y (pos 0)
unfolding cmp cmp_stack set_ezsp_version_info set_stack_version
cmp-set_ezsp_version_info x y protocol stack_type a b hx hy e =
    ground (arith, nibbles x hx, nibbles y hy, cmp_nibbles x y)

-- Two Legrand adapters of the same protocol and stack type are ordered as their 16-bit XNCP version
-- words without the hardware revision, which is the top four bits.
pub cmp-set_xncp_data :
    (x y : ℕ) (a b : EzspAdapterVersion)
    → IsU16 x
    → IsU16 y
    → a.ezsp_protocol_version ≡ b.ezsp_protocol_version
    → a.ezsp_stack_type ≡ b.ezsp_stack_type
    → cmp (set_xncp_data manufacturer_legrand x a) (set_xncp_data manufacturer_legrand y b)
      ≡ cmp_then (x % 4096) (y % 4096) (pos 0)
unfolding cmp cmp_xncp set_xncp_data
cmp-set_xncp_data x y a b hx hy ep et =
    ground (arith, nibbles x hx, nibbles y hy, cmp_xncp_nibbles x y)

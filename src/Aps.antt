-- ===== src/Aps.antt =====
-- src/ezsp/zbmessage/apsoption.cpp and aps.cpp: the options and the header of an APS frame.
pub mod RoundTrip
use libezsp.Common.{ℕ, zero, suc, ◌!=◌, if◌then◌else◌, bit_and, bit_or, Bool, true, false}
use libezsp.Common.{List, [], ◌∷◌, Option, none, some}
use libezsp.ByteManip.{dble_u8_to_u16, u16_get_hi_u8, u16_get_lo_u8}

pub record ApsOption : Type 0 where
  pub dest_ieee : Bool
  pub enable_addr_discovery : Bool
  pub enable_route_discovery : Bool
  pub encryption : Bool
  pub force_route_discovery : Bool
  pub fragment : Bool
  pub retry : Bool
  pub src_ieee : Bool
  pub zdo_rsp_requiered : Bool

unfoldable pub new_aps_option : ApsOption
new_aps_option = record {
  dest_ieee = false;
  enable_addr_discovery = true;
  enable_route_discovery = true;
  encryption = false;
  force_route_discovery = false;
  fragment = false;
  retry = true;
  src_ieee = true;
  zdo_rsp_requiered = false;
}

-- `if (b) { lo_option |= mask; }`
abbrev pub or_if : Bool → ℕ → ℕ → ℕ
or_if b mask lo_option = if b then bit_or lo_option mask else lo_option

unfoldable pub get_ember_aps_option : ApsOption → ℕ
get_ember_aps_option o = or_if o.fragment 0x8000 (
    or_if o.zdo_rsp_requiered 0x4000 (
      or_if o.enable_addr_discovery 0x1000 (
        or_if o.dest_ieee 0x0800 (
          or_if o.src_ieee 0x0400 (
            or_if o.force_route_discovery 0x0200 (
              or_if o.enable_route_discovery 0x0100
                (or_if o.retry 0x0040 (or_if o.encryption 0x0020 0))))))))

unfoldable pub set_ember_aps_option : ℕ → ApsOption
set_ember_aps_option i_option = record {
  encryption = bit_and i_option 0x0020 != 0;
  retry = bit_and i_option 0x0040 != 0;
  enable_route_discovery = bit_and i_option 0x0100 != 0;
  force_route_discovery = bit_and i_option 0x0200 != 0;
  src_ieee = bit_and i_option 0x0400 != 0;
  dest_ieee = bit_and i_option 0x0800 != 0;
  enable_addr_discovery = bit_and i_option 0x1000 != 0;
  zdo_rsp_requiered = bit_and i_option 0x4000 != 0;
  fragment = bit_and i_option 0x8000 != 0;
}

pub record ApsFrame : Type 0 where
  pub cluster_id : ℕ
  pub dest_ep : ℕ
  pub group_id : ℕ
  pub option : ApsOption
  pub profile_id : ℕ
  pub sequence : ℕ
  pub src_ep : ℕ

unfoldable pub new_aps_frame : ApsFrame
unfolding new_aps_option
new_aps_frame = record {
  cluster_id = 0;
  dest_ep = 0;
  group_id = 0;
  option = new_aps_option;
  profile_id = 0;
  sequence = 0;
  src_ep = 0;
}

unfoldable pub set_default_aps : ℕ → ℕ → ℕ → ℕ → ApsFrame → ApsFrame
set_default_aps i_profile_id i_cluster_id i_dest_ep i_grp_id a = record a {
  profile_id = i_profile_id;
  cluster_id = i_cluster_id;
  dest_ep = i_dest_ep;
  group_id = i_grp_id;
  sequence = 0;
  src_ep = 1;
}

unfoldable pub get_ember_aps : ApsFrame → List ℕ
get_ember_aps a =
    let l_option = get_ember_aps_option a.option in
    u16_get_lo_u8 a.profile_id
    ∷ u16_get_hi_u8 a.profile_id
    ∷ u16_get_lo_u8 a.cluster_id
    ∷ u16_get_hi_u8 a.cluster_id
    ∷ a.src_ep
    ∷ a.dest_ep
    ∷ u16_get_lo_u8 l_option
    ∷ u16_get_hi_u8 l_option
    ∷ u16_get_lo_u8 a.group_id
    ∷ u16_get_hi_u8 a.group_id
    ∷ a.sequence
    ∷ []

-- `none` where `at()` throws.
unfoldable pub set_ember_aps : List ℕ → Option ApsFrame
set_ember_aps (p0 ∷ p1 ∷ c0 ∷ c1 ∷ s ∷ d ∷ o0 ∷ o1 ∷ g0 ∷ g1 ∷ n ∷ rest) = some (record {
  profile_id = dble_u8_to_u16 p1 p0;
  cluster_id = dble_u8_to_u16 c1 c0;
  src_ep = s;
  dest_ep = d;
  option = set_ember_aps_option (dble_u8_to_u16 o1 o0);
  group_id = dble_u8_to_u16 g1 g0;
  sequence = n;
})
set_ember_aps _ = none

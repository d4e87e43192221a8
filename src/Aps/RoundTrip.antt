-- ===== src/Aps/RoundTrip.antt =====
-- Reading back what CAPSOption and CAPSFrame write.
use libezsp.Common.{ℕ, ◌≡◌, arith, ap, ◌∙◌, IsU16, List, ◌++◌, some}
use libezsp.ByteManip.{dble_u8_to_u16, u16_get_hi_u8, u16_get_lo_u8}
use libezsp.ByteManip.Join.{dble_u8_to_u16-split}
use libezsp.Aps.{
  ApsOption, get_ember_aps_option, set_ember_aps_option, ApsFrame, get_ember_aps, set_ember_aps,
}

-- The nine options are read back from their 16-bit word.
pub set-get_ember_aps_option : (o : ApsOption) → set_ember_aps_option (get_ember_aps_option o) ≡ o
unfolding set_ember_aps_option get_ember_aps_option
set-get_ember_aps_option o = ground arith

get_ember_aps_option-IsU16 : (o : ApsOption) → IsU16 (get_ember_aps_option o)
unfolding get_ember_aps_option
get_ember_aps_option-IsU16 o = ground arith

abbrev two_bytes : ℕ → ℕ
two_bytes w = dble_u8_to_u16 (u16_get_hi_u8 w) (u16_get_lo_u8 w)

two_bytes_lem : (w : ℕ) → IsU16 w → two_bytes w ≡ w
two_bytes_lem w h = (dble_u8_to_u16-split w 0 0 h (omega arith) (omega arith)).0

-- An APS header is read back from its eleven bytes, whatever follows them, where the profile, the
-- cluster and the group are 16-bit words.
pub set-get_ember_aps :
    (a : ApsFrame) (rest : List ℕ)
    → IsU16 a.profile_id
    → IsU16 a.cluster_id
    → IsU16 a.group_id
    → set_ember_aps (get_ember_aps a ++ rest) ≡ some a
unfolding set_ember_aps get_ember_aps
set-get_ember_aps a rest hp hc hg =
    let option_word = get_ember_aps_option a.option in
    let word : two_bytes option_word ≡ option_word =
      two_bytes_lem option_word (get_ember_aps_option-IsU16 a.option) in
    let whole : set_ember_aps_option (two_bytes option_word) ≡ a.option =
      ap set_ember_aps_option word ∙ set-get_ember_aps_option a.option in
    ground (
      arith,
      two_bytes_lem a.profile_id hp,
      two_bytes_lem a.cluster_id hc,
      two_bytes_lem a.group_id hg,
      whole,
    )

-- ===== src/Gbl/Version.antt =====
-- That get_gbl_version.c (src/spi/gbl-info-extractor) ends, and which version it prints.
use libezsp.Common.{
  ℕ, zero, suc, ◌+◌, ◌*◌, ◌/◌, ◌%◌, ◌≤◌, ◌<◌, ◌≡◌, ◌≢◌, ◌∙◌, refl, ap, arith, ◌==◌,
}
use libezsp.Common.{
  List, [], ◌∷◌, ◌++◌, Option, none, some, Bool-cases, inl, inr, if_true, if_false, length, drop,
  All, ◌-◌, IsU8, IsU32,
}
use libezsp.Common.{bit_or_disjoint, length-drop, drop-append_left, take-append_left, length-append}
use libezsp.ByteManip.{u32_get_byte0, u32_get_byte1, u32_get_byte2, u32_get_byte3}
use libezsp.ByteManip.Join.{u32_bytes}
use mathlib.Core.List.{append_assoc}
use libezsp.Structs.{byte}
use libezsp.Gbl.{letohl, ebl_tag_id_application, Ending, version, application_tag, scan_tags}
use libezsp.Gbl.{get_gbl_version, failed_next_tag, read_tag, after_tag}

letohl_sum :
    (b0 b1 b2 b3 : ℕ)
    → IsU8 b0
    → IsU8 b1
    → IsU8 b2
    → IsU8 b3
    → letohl b0 b1 b2 b3 ≡ b3 * 16777216 + b2 * 65536 + b1 * 256 + b0
unfolding letohl
letohl_sum b0 b1 b2 b3 h0 h1 h2 h3 = ground (
  arith,
  bit_or_disjoint 8 b3 b2 h2,
  bit_or_disjoint 8 (b3 * 256 + b2) b1 h1,
  bit_or_disjoint 8 (b3 * 65536 + b2 * 256 + b1) b0 h0,
)

-- The four bytes of a word, the lowest first.
abbrev pub le_bytes : ℕ → List ℕ
le_bytes w = u32_get_byte0 w ∷ u32_get_byte1 w ∷ u32_get_byte2 w ∷ u32_get_byte3 w ∷ []

letohl_bytes :
    (w : ℕ)
    → IsU32 w
    → letohl (u32_get_byte0 w) (u32_get_byte1 w) (u32_get_byte2 w) (u32_get_byte3 w) ≡ w
letohl_bytes w h =
    let (e0, e1, e2, e3) = u32_bytes w h in
    rw
      (
        e0,
        e1,
        e2,
        e3,
        letohl_sum (w % 256) (w / 256 % 256) (w / 65536 % 256) (w / 16777216) (omega arith)
            (omega arith) (omega arith) (omega arith),
      )
      (omega arith)

read_tag_short : (s r : List ℕ) (i l : ℕ) → read_tag s ≡ some (i, l, r) → length r < length s
unfolding read_tag
read_tag_short s r i l e = ground (arith, length-drop 8 s)

after_tag_ends :
    (t : Option (ℕ × ℕ × List ℕ)) (further : List ℕ → Option Ending)
    → ((i l : ℕ) (r : List ℕ) → t ≡ some (i, l, r) → (e : Ending) × (further (drop l r) ≡ some e))
    → (e : Ending) × (after_tag t further ≡ some e)
after_tag_ends none further ends = (failed_next_tag, refl)
after_tag_ends (some (i, l, r)) further ends = elim (Bool-cases (i == ebl_tag_id_application)) [
  | inl h ↦ (application_tag l r, if_true _ h)
  | inr h ↦ let (e, q) = ends i l r refl in (e, if_false _ h ∙ q)
]

-- With a round for every byte and one more, the loop ends.
scan_tags_ends : (n : ℕ) (s : List ℕ) → length s < n → (e : Ending) × (scan_tags n s ≡ some e)
unfolding scan_tags
scan_tags_ends zero s h = absurd (omega arith)
scan_tags_ends (suc n) s h = after_tag_ends (read_tag s) (scan_tags n) (λ i l r e.
    scan_tags_ends n (drop l r) (omega (arith, read_tag_short s r i l e, length-drop l r)))

-- A tag as it stands in an image.
abbrev pub tag_bytes : ℕ × List ℕ → List ℕ
tag_bytes (i, payload) = le_bytes i ++ le_bytes (length payload) ++ payload

abbrev pub image_bytes : List (ℕ × List ℕ) → List ℕ
image_bytes [] = []
image_bytes (t ∷ ts) = tag_bytes t ++ image_bytes ts

abbrev pub IsTag : ℕ × List ℕ → Type 0
IsTag (i, payload) = IsU32 i × IsU32 (length payload)

read-tag_bytes :
    (i : ℕ) (payload rest : List ℕ)
    → IsTag (i, payload)
    → read_tag (tag_bytes (i, payload) ++ rest) ≡ some (i, length payload, payload ++ rest)
unfolding read_tag byte
read-tag_bytes i payload rest (hi, hl) =
    ground (arith, letohl_bytes i hi, letohl_bytes (length payload) hl)

-- For every image the program ends with a version or with one of its failures.
pub get_gbl_version_ends : (image : List ℕ) → (e : Ending) × (get_gbl_version image ≡ some e)
unfolding get_gbl_version
get_gbl_version_ends image = scan_tags_ends (suc (length image)) image (omega arith)

abbrev pub IsSkipped : ℕ × List ℕ → Type 0
IsSkipped t = IsTag t × (t.0 ≢ ebl_tag_id_application)

tag_skipped :
    (n i : ℕ) (payload rest : List ℕ)
    → IsTag (i, payload)
    → i ≢ ebl_tag_id_application
    → scan_tags (suc n) (tag_bytes (i, payload) ++ rest) ≡ scan_tags n rest
unfolding scan_tags
tag_skipped n i payload rest fits other =
    ap (λ t. after_tag t (scan_tags n)) (read-tag_bytes i payload rest fits)
    ∙ if_false {b = i == ebl_tag_id_application}
        (some (application_tag (length payload) (payload ++ rest))) (ground arith)
    ∙ ap (scan_tags n) (drop-append_left payload rest)

-- The application's data, from its type and version on.
abbrev pub application_data : ℕ → ℕ → List ℕ → List ℕ
application_data kind v more = le_bytes kind ++ le_bytes v ++ more

application_found :
    (n kind v : ℕ) (more rest : List ℕ)
    → IsU32 v
    → 20 ≤ length more
    → length more ≤ 56
    → scan_tags (suc n) (tag_bytes (ebl_tag_id_application, application_data kind v more) ++ rest)
      ≡ some (version v)
unfolding scan_tags application_tag byte
application_found n kind v more rest hv le le' =
    let payload = application_data kind v more in
    ap (λ t. after_tag t (scan_tags n))
      (read-tag_bytes ebl_tag_id_application payload rest (omega arith, omega arith))
    ∙ ground (arith, letohl_bytes v hv, take-append_left payload rest)

-- An image: tags that are skipped, the application's data, and anything behind it.
abbrev pub firmware_image : List (ℕ × List ℕ) → ℕ → ℕ → List ℕ → List ℕ → List ℕ
firmware_image tags kind v more rest =
    image_bytes tags ++ (tag_bytes (ebl_tag_id_application, application_data kind v more) ++ rest)

found_behind :
    (n kind v : ℕ) (tags : List (ℕ × List ℕ)) (more rest : List ℕ)
    → All IsSkipped tags
    → IsU32 v
    → 20 ≤ length more
    → length more ≤ 56
    → scan_tags (length tags + suc n) (firmware_image tags kind v more rest) ≡ some (version v)
found_behind n kind v [] more rest skipped hv le le' =
    let rounds : 0 + suc n ≡ suc n = omega arith in
    ap (λ k. scan_tags k (firmware_image [] kind v more rest)) rounds
    ∙ application_found n kind v more rest hv le le'
found_behind n kind v ((i, payload) ∷ tags) more rest ((fits, other), skipped) hv le le' =
    let rounds : suc (length tags) + suc n ≡ suc (length tags + suc n) = omega arith in
    let behind = firmware_image tags kind v more rest in
    ap (λ k. scan_tags k (firmware_image ((i, payload) ∷ tags) kind v more rest)) rounds
    ∙ ap (scan_tags (suc (length tags + suc n))) (
        append_assoc (tag_bytes (i, payload)) (image_bytes tags)
          (tag_bytes (ebl_tag_id_application, application_data kind v more) ++ rest))
    ∙ tag_skipped (length tags + suc n) i payload behind fits other
    ∙ found_behind n kind v tags more rest skipped hv le le'

length-image_bytes : (tags : List (ℕ × List ℕ)) → length tags ≤ length (image_bytes tags)
length-image_bytes [] = omega arith
length-image_bytes (t ∷ tags) =
    omega (arith, length-append (tag_bytes t) (image_bytes tags), length-image_bytes tags)

-- The version of an image is printed: of the first tag of the application's data, whose payload has 28
-- to 64 bytes, behind any other tags, and whatever follows. Identifiers, lengths and the version have
-- 32 bits.
pub get_gbl_version-image :
    (tags : List (ℕ × List ℕ)) (kind v : ℕ) (more rest : List ℕ)
    → All IsSkipped tags
    → IsU32 v
    → 20 ≤ length more
    → length more ≤ 56
    → get_gbl_version (firmware_image tags kind v more rest) ≡ some (version v)
unfolding get_gbl_version
get_gbl_version-image tags kind v more rest skipped hv le le' =
    let image = firmware_image tags kind v more rest in
    let spare = length image - length tags in
    let small : length tags ≤ length image = omega (
      arith,
      length-image_bytes tags,
      length-append (image_bytes tags)
          (tag_bytes (ebl_tag_id_application, application_data kind v more) ++ rest),
    ) in
    let rounds : suc (length image) ≡ length tags + suc spare = omega arith in
    ap (λ k. scan_tags k image) rounds ∙ found_behind spare kind v tags more rest skipped hv le le'

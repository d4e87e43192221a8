-- ===== src/Ash/Stuffing/Laws.antt =====
-- Byte stuffing loses nothing, and keeps the bytes that steer the link out of a frame's body.
use libezsp.Common.{ℕ, ◌*◌, ◌≤◌, ◌≡◌, refl, ap, ◌∙◌, ◌≢◌, arith}
use libezsp.Common.{List, [], ◌∷◌, ◌++◌, length, length-append, All, All-append, false}
use libezsp.Ash.Stuffing.{stuff_byte, stuff_all, remove_loop, remove_byte_stuffing}
use libezsp.Ash.Stuffing.{add_byte_stuffing, ash_cancel_byte, ash_flag_byte, ash_substitute_byte}
use libezsp.Ash.Stuffing.{ash_xon_byte, ash_off_byte}
use mathlib.Core.List.{append_assoc, append-nil, append_cancel_right}

-- A byte that the receiver of a frame stores and does not act on.
abbrev pub IsPlain : ℕ → Type 0
IsPlain b =
    (b ≢ ash_cancel_byte)
    × (b ≢ ash_flag_byte)
    × (b ≢ ash_substitute_byte)
    × (b ≢ ash_xon_byte)
    × (b ≢ ash_off_byte)

remove_loop-stuff_byte :
    (b : ℕ) (rest : List ℕ) → remove_loop false (stuff_byte b ++ rest) ≡ b ∷ remove_loop false rest
unfolding stuff_byte remove_loop
remove_loop-stuff_byte b rest = ground arith

pub remove_loop-stuff_all :
    (bs rest : List ℕ) → remove_loop false (stuff_all bs ++ rest) ≡ bs ++ remove_loop false rest
unfolding stuff_all
remove_loop-stuff_all [] rest = refl
remove_loop-stuff_all (b ∷ bs) rest =
    rw (append_assoc (stuff_byte b) (stuff_all bs) rest)
      (remove_loop-stuff_byte b (stuff_all bs ++ rest) ∙ ap (◌∷◌ b) (remove_loop-stuff_all bs rest))

-- Removing the stuffing from a stuffed sequence, its closing flag byte left off, gives the
-- sequence back, whatever the bytes are.
pub remove-add_byte_stuffing :
    (bs body : List ℕ)
    → add_byte_stuffing bs ≡ body ++ (ash_flag_byte ∷ [])
    → remove_byte_stuffing body ≡ bs
unfolding add_byte_stuffing remove_byte_stuffing remove_loop
remove-add_byte_stuffing bs body e =
    let same : stuff_all bs ≡ body = append_cancel_right _ _ _ e in
    rw (← same, ← append-nil (stuff_all bs)) (remove_loop-stuff_all bs [] ∙ append-nil bs)

stuff_byte-IsPlain : (b : ℕ) → All IsPlain (stuff_byte b)
unfolding stuff_byte
stuff_byte-IsPlain b = ground arith

pub stuff_all-IsPlain : (bs : List ℕ) → All IsPlain (stuff_all bs)
unfolding stuff_all
stuff_all-IsPlain [] = tt
stuff_all-IsPlain (b ∷ bs) =
    All-append IsPlain (stuff_byte b) (stuff_all bs) (stuff_byte-IsPlain b) (stuff_all-IsPlain bs)

length-stuff_byte : (b : ℕ) → (1 ≤ length (stuff_byte b)) × (length (stuff_byte b) ≤ 2)
unfolding stuff_byte
length-stuff_byte b = ground arith

pub length-stuff_all :
    (bs : List ℕ) → (length bs ≤ length (stuff_all bs)) × (length (stuff_all bs) ≤ 2 * length bs)
unfolding stuff_all
length-stuff_all [] = omega arith
length-stuff_all (b ∷ bs) =
    omega
      (arith, length-append (stuff_byte b) (stuff_all bs), length-stuff_byte b, length-stuff_all bs)

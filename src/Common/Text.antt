-- ===== src/Common/Text.antt =====
-- Texts as lists of bytes: literals, and the search that std::string::find does.
use Prim.Native.Char.{code}
use Prim.Native.String.{String}
use Prim.Native.Nat.{ℕ, zero, suc, ◌+◌, ◌≤◌}
use mathlib.Core.Bool.{Bool, true, false, ◌&&◌}
use mathlib.Core.List.{List, [], ◌∷◌, ◌++◌}
use mathlib.Core.Logic.{◌≢◌, inl, inr}
use mathlib.Core.Option.{Option, none, some}
use mathlib.Core.Path.{◌≡◌, refl, ap, sym, ◌∙◌}
use native.Mathlib.Omega.{arith}
use libezsp.Common.Tests.{◌==◌, if◌then◌else◌, Bool-cases, if_true, if_false}
use libezsp.Common.Lists.{length, drop, All}

-- The bytes of a literal, which is ASCII.
abbrev pub codes : String → List ℕ
codes String.[] = []
codes (String.◌∷◌ c s) = code c ∷ codes s

unfoldable pub starts_with : List ℕ → List ℕ → Bool
starts_with [] s = true
starts_with (c ∷ p) [] = false
starts_with (c ∷ p) (d ∷ s) = (c == d) && starts_with p s

abbrev pub one_further : Option ℕ → Option ℕ
one_further none = none
one_further (some i) = some (suc i)

-- The first position of a text that is not empty.
unfoldable pub find_text : List ℕ → List ℕ → Option ℕ
unfolding starts_with
find_text p [] = none
find_text p (c ∷ s) =
    let further = one_further (find_text p s) in if starts_with p (c ∷ s) then some 0 else further

pub starts_with-append : (p s : List ℕ) → starts_with p (p ++ s) ≡ true
unfolding starts_with
starts_with-append [] s = refl
starts_with-append (c ∷ p) s = ground (arith, starts_with-append p s)

-- A text that does not begin with the first byte of the pattern is searched behind.
pub find_text-skip :
    (c : ℕ) (p pre s : List ℕ)
    → All (λ d. d ≢ c) pre
    → find_text (c ∷ p) (pre ++ (c ∷ p) ++ s) ≡ some (length pre)
unfolding find_text starts_with
find_text-skip c p [] s h = ground (arith, starts_with-append p s)
find_text-skip c p (d ∷ pre) s (ne, h) = ground (arith, find_text-skip c p pre s h)

-- What is there is found, and the pattern stands where it is found.
pub find_text-append :
    (c : ℕ) (p pre s : List ℕ)
    → (i : ℕ) × (find_text (c ∷ p) (pre ++ (c ∷ p) ++ s) ≡ some i) × (i ≤ length pre)
unfolding find_text starts_with
find_text-append c p [] s = (0, ground (arith, starts_with-append p s), omega arith)
find_text-append c p (d ∷ pre) s =
    let (i, e, le) = find_text-append c p pre s in
    elim (Bool-cases (starts_with (c ∷ p) ((d ∷ pre) ++ (c ∷ p) ++ s))) [
      | inl h ↦ (0, if_true _ h, omega arith)
      | inr h ↦ (suc i, if_false _ h ∙ ap one_further e, omega arith)
    ]

further_inj : (o : Option ℕ) (i : ℕ) → one_further o ≡ some (suc i) → o ≡ some i
further_inj none i h = ground arith
further_inj (some j) i h = ground arith

further_pos : (o : Option ℕ) → one_further o ≢ some 0
further_pos none h = ground arith
further_pos (some j) h = ground arith

pub find_text_sound :
    (p s : List ℕ) (i : ℕ) → find_text p s ≡ some i → starts_with p (drop i s) ≡ true
unfolding find_text
find_text_sound p [] i h = ground arith
find_text_sound p (c ∷ s) zero h = ground (arith, further_pos (find_text p s))
find_text_sound p (c ∷ s) (suc i) h =
    ground (
      arith,
      further_inj (find_text p s) i,
      λ (e : find_text p s ≡ some i). find_text_sound p s i e,
    )

pub drop-append {ℓ} :
    {A : Type ℓ} (i : ℕ) (xs ys : List A) → i ≤ length xs → drop i (xs ++ ys) ≡ drop i xs ++ ys
drop-append zero xs ys h = refl
drop-append (suc i) [] ys h = absurd (omega arith)
drop-append (suc i) (x ∷ xs) ys h = drop-append i xs ys (omega arith)

pub drop-length_add {ℓ} :
    {A : Type ℓ} (n : ℕ) (xs ys : List A) → drop (length xs + n) (xs ++ ys) ≡ drop n ys
drop-length_add n [] ys = ap (λ i. drop i ys) (omega arith)
drop-length_add n (x ∷ xs) ys =
    let shifted : suc (length xs) + n ≡ suc (length xs + n) = omega arith in
    ap (λ i. drop i (x ∷ (xs ++ ys))) shifted ∙ drop-length_add n xs ys

drop_nil {ℓ} : (A : Type ℓ) (i : ℕ) → drop {A = A} i [] ≡ []
drop_nil A zero = refl
drop_nil A (suc i) = refl

pub drop-drop {ℓ} : {A : Type ℓ} (i j : ℕ) (xs : List A) → drop j (drop i xs) ≡ drop (i + j) xs
drop-drop zero j xs = let same : j ≡ 0 + j = omega arith in ap (λ k. drop k xs) same
drop-drop {A = A} (suc i) j [] = drop_nil A j ∙ sym (drop_nil A (suc i + j))
drop-drop (suc i) j (x ∷ xs) =
    let shifted : suc (i + j) ≡ suc i + j = omega arith in
    drop-drop i j xs ∙ ap (λ k. drop k (x ∷ xs)) shifted

-- Without the first byte of the pattern, it is not there.
pub find_text_absent : (c : ℕ) (p s : List ℕ) → All (λ d. d ≢ c) s → find_text (c ∷ p) s ≡ none
unfolding find_text starts_with
find_text_absent c p [] h = refl
find_text_absent c p (d ∷ s) (ne, h) = ground (arith, find_text_absent c p s h)

pub All-drop {ℓ κ} :
    {A : Type ℓ} (P : A → Type κ) (i : ℕ) (xs : List A) → All P xs → All P (drop i xs)
All-drop P zero xs h = h
All-drop P (suc i) [] h = h
All-drop P (suc i) (x ∷ xs) (p, h) = All-drop P i xs h

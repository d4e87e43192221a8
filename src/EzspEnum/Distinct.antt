-- ===== src/EzspEnum/Distinct.antt =====
-- That a printed name belongs to one value (src/ezsp/ezsp-protocol/ezsp-enum.cpp).
use libezsp.Common.{ℕ, ◌≡◌, ◌≢◌, ◌∙◌, refl, sym, ap, arith, ◌==◌, Bool, true, false}
use libezsp.Common.{List, [], ◌∷◌, Option, none, some, Bool-cases, inl, inr, if_true, if_false}
use mathlib.Core.Option.{some-injective}
use libezsp.EzspEnum.Commands.{NameTable, ezsp_cmd_names}
use libezsp.EzspEnum.Names.{find_name, name_or, unknown_value, ezsp_cmd_to_string}

abbrev same_text : List ℕ → List ℕ → Bool
same_text [] [] = true
same_text [] (d ∷ t) = false
same_text (c ∷ s) [] = false
same_text (c ∷ s) (d ∷ t) = elim (c == d) [ true ↦ same_text s t | false ↦ false ]

-- The value of a name, of the first entry that has it.
abbrev value_of : List ℕ → NameTable → Option ℕ
value_of name [] = none
value_of name ((v, n) ∷ names) = elim (same_text name n) [
  | true ↦ some v
  | false ↦ value_of name names
]

abbrev is_value : ℕ → Option ℕ → Bool
is_value v none = false
is_value v (some w) = v == w

-- Every name of the first table has its value in the second one.
abbrev reads_back : NameTable → NameTable → Bool
reads_back [] all = true
reads_back ((v, n) ∷ names) all = elim (is_value v (value_of n all)) [
  | true ↦ reads_back names all
  | false ↦ false
]

ezsp_cmd_names_read_back : reads_back ezsp_cmd_names ezsp_cmd_names ≡ true
ezsp_cmd_names_read_back = refl

both : (b c : Bool) → (elim b [ true ↦ c | false ↦ false ]) ≡ true → (b ≡ true) × (c ≡ true)
both true c h = (refl, h)
both false c h = cc

has_value : (v : ℕ) (o : Option ℕ) → is_value v o ≡ true → o ≡ some v
has_value v none h = cc
has_value v (some w) h = ground arith

-- A name that is found for a value is read back as that value.
value_of-find_name :
    (m : ℕ) (s : List ℕ) (names all : NameTable)
    → reads_back names all ≡ true
    → find_name m names ≡ some s
    → value_of s all ≡ some m
unfolding find_name
value_of-find_name m s [] all good found = cc
value_of-find_name m s ((v, n) ∷ names) all good found =
    let (this, those) = both (is_value v (value_of n all)) (reads_back names all) good in
    elim (Bool-cases (v == m)) [
      | inl e ↦
          let same : some n ≡ some s = sym (if_true (find_name m names) e) ∙ found in
          let here : v ≡ m = ground arith in
          ap (λ t. value_of t all) (sym (some-injective n s same))
          ∙ has_value v (value_of n all) this
          ∙ ap some here
      | inr e ↦ value_of-find_name m s names all those (sym (if_false (some n) e) ∙ found)
    ]

named :
    (o : Option (List ℕ)) (s : List ℕ)
    → s ≢ unknown_value
    → name_or unknown_value o ≡ s
    → o ≡ some s
named none s known e = absurd (known (sym e))
named (some n) s known e = ap some e

-- Two commands that are printed with the same name, other than the text for an unknown value, are the
-- same command.
pub ezsp_cmd_to_string_distinct :
    (m n : ℕ)
    → ezsp_cmd_to_string m ≢ unknown_value
    → ezsp_cmd_to_string m ≡ ezsp_cmd_to_string n
    → m ≡ n
unfolding ezsp_cmd_to_string
ezsp_cmd_to_string_distinct m n known e =
    let s = ezsp_cmd_to_string m in
    let at : (k : ℕ) → ezsp_cmd_to_string k ≡ s → value_of s ezsp_cmd_names ≡ some k = λ k same.
      value_of-find_name k s ezsp_cmd_names ezsp_cmd_names ezsp_cmd_names_read_back
        (named (find_name k ezsp_cmd_names) s known same) in
    some-injective m n (sym (at m refl) ∙ at n (sym e))

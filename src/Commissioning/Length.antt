-- ===== src/Commissioning/Length.antt =====
-- The length of the key that is read from a commissioning payload
-- (src/ezsp/zbmessage/gpd-commissioning-command-payload.cpp).
use libezsp.Common.{ℕ, zero, suc, ◌≤◌, ◌≡◌, refl, arith, Bool, true, false, List, [], ◌∷◌}
use libezsp.Common.{length, Option, none, some, replicate}
use libezsp.Commissioning.{Aes, CommissioningPayload, split_bytes, xor_bytes, decrypt_key, read_key}
use libezsp.Commissioning.{read_commissioning, ◌>>=◌, present, flag, read_byte, read_word}
use libezsp.Commissioning.{read_dword, read_counted, tc_lk, key_nonce}

-- The predicate holds of the result, where there is one.
abbrev pub Holds {ℓ κ} : {A : Type ℓ} → (A → Type κ) → Option A → Type κ
Holds P none = Unit
Holds P (some a) = P a

module _ {ℓ κ λ'} {A : Type ℓ} {B : Type κ} (P : B → Type λ') where
  pub Holds-bind_any :
      (o : Option A) (f : A → Option B) → ((a : A) → Holds P (f a)) → Holds P (o >>= f)
  Holds-bind_any none f h = tt
  Holds-bind_any (some a) f h = h a

  pub Holds-bind {μ} :
      (Q : A → Type μ) (o : Option A) (f : A → Option B)
      → Holds Q o
      → ((a : A) → Q a → Holds P (f a))
      → Holds P (o >>= f)
  Holds-bind Q none f q h = tt
  Holds-bind Q (some a) f q h = h a q

abbrev IsFront : ℕ → List ℕ × List ℕ → Type 0
IsFront n (front, rest) = length front ≡ n

length-split_bytes : (n : ℕ) (bs : List ℕ) → Holds (IsFront n) (split_bytes n bs)
unfolding split_bytes
length-split_bytes zero bs = refl
length-split_bytes (suc n) [] = tt
length-split_bytes (suc n) (b ∷ bs) = ground (arith, length-split_bytes n bs)

length-xor_bytes : (xs ys : List ℕ) → length (xor_bytes xs ys) ≤ length ys
unfolding xor_bytes
length-xor_bytes [] ys = omega arith
length-xor_bytes (x ∷ xs) [] = omega arith
length-xor_bytes (x ∷ xs) (y ∷ ys) = omega (arith, length-xor_bytes xs ys)

abbrev IsKey : (List ℕ × ℕ) × List ℕ → Type 0
IsKey ((key, mic), rest) = length key ≤ 16

length-read_key : (aes : Aes) (i ext : ℕ) (bs : List ℕ) → Holds IsKey (read_key aes i ext bs)
unfolding read_key decrypt_key
length-read_key aes i ext bs =
    Holds-bind IsKey (IsFront 16) (split_bytes 16 bs) _ (length-split_bytes 16 bs) (λ (key, rest) e.
      ground (arith, length-xor_bytes (aes tc_lk (xor_bytes (replicate 16 0) (key_nonce i))) key))

present-IsKey :
    (b : Bool) (aes : Aes) (i ext : ℕ) (bs : List ℕ)
    → Holds IsKey (present b (replicate 16 0, 0) (read_key aes i ext) bs)
present-IsKey true aes i ext bs = length-read_key aes i ext bs
present-IsKey false aes i ext bs = omega arith

abbrev HasKey : CommissioningPayload → Type 0
HasKey p = length p.key ≤ 16

-- The key has at most 16 bytes, whatever the cipher returns.
pub length-read_commissioning :
    (aes : Aes) (raw : List ℕ) (i : ℕ) → Holds HasKey (read_commissioning aes raw i)
unfolding read_commissioning
length-read_commissioning aes raw i = Holds-bind_any HasKey (read_byte raw) _ λ (d, r0).
    Holds-bind_any HasKey (read_byte r0) _ λ (o, r1).
      Holds-bind_any HasKey (present (flag 0x80 o) 0 read_byte r1) _ λ (ext, r2).
        Holds-bind HasKey IsKey
          (present (flag 0x20 ext) (replicate 16 0, 0) (read_key aes i ext) r2) _
          (present-IsKey (flag 0x20 ext) aes i ext r2)
          λ (keys, r3) h.
            Holds-bind_any HasKey (present (flag 0x80 ext) 0 read_dword r3) _ λ (c, r4).
              Holds-bind_any HasKey (present (flag 0x04 o) 0 read_byte r4) _ λ (a, r5).
                Holds-bind_any HasKey (present (flag 0x01 a) 0 read_word r5) _ λ (m, r6).
                  Holds-bind_any HasKey (present (flag 0x02 a) 0 read_word r6) _ λ (n, r7).
                    Holds-bind_any HasKey (present (flag 0x04 a) [] read_counted r7) _ λ (g, r8). h

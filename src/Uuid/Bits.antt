-- ===== src/Uuid/Bits.antt =====
-- uuid.go: the bits that `NewUUID` sets in the random bytes.
use gosnowflake.Base.{
  ℕ, zero, suc, Bool, true, ◌&&◌, ◌/◌, ◌%◌, ◌<◌, ◌==◌, ◌≡◌, refl, All, arith, Bool-cases, inl, ap,
  ◌∙◌, sym, inr,
}
use Prim.Native.Nat.{bit_and, bit_or}
use gosnowflake.Uuid.{Uuid, uuid_bytes, new_uuid}

-- Whether two operations agree on the numbers that are less than one.
agree : (ℕ → ℕ) → (ℕ → ℕ) → ℕ → Bool
agree f g zero = true
agree f g (suc bound) = let rest = agree f g bound in f bound == g bound && rest

on_bytes : (f g : ℕ → ℕ) (bound b : ℕ) → b < bound → agree f g bound ≡ true → f b ≡ g b
unfolding agree
on_bytes f g zero b small same = absurd (omega arith)
on_bytes f g (suc bound) b small same =
    let parts : (f bound ≡ g bound) × (agree f g bound ≡ true) = ground arith in
    elim (Bool-cases (b == bound)) [
      | inl last ↦ let at : b ≡ bound = ground arith in ap f at ∙ parts.0 ∙ ap g (sym at)
      | inr earlier ↦ on_bytes f g bound b (ground arith) parts.1
    ]

high_b6 : (b : ℕ) → b < 256 → bit_or (bit_and b 0xF) 64 / 16 ≡ 4
unfolding agree
high_b6 b h = on_bytes (λ b. bit_or (bit_and b 0xF) 64 / 16) (λ b. 4) 256 b h refl

low_b6 : (b : ℕ) → b < 256 → bit_or (bit_and b 0xF) 64 % 16 ≡ b % 16
unfolding agree
low_b6 b h = on_bytes (λ b. bit_or (bit_and b 0xF) 64 % 16) (λ b. b % 16) 256 b h refl

high_b8 : (b : ℕ) → b < 256 → bit_and (bit_or b 0x40) 0x7F / 64 ≡ 1
unfolding agree
high_b8 b h = on_bytes (λ b. bit_and (bit_or b 0x40) 0x7F / 64) (λ b. 1) 256 b h refl

low_b8 : (b : ℕ) → b < 256 → bit_and (bit_or b 0x40) 0x7F % 64 ≡ b % 64
unfolding agree
low_b8 b h = on_bytes (λ b. bit_and (bit_or b 0x40) 0x7F % 64) (λ b. b % 64) 256 b h refl

-- A new UUID has the version 4 in the high half of byte 6, and 01 as the two highest bits of byte 8;
-- the other bits of these bytes are the random ones, whatever these are.
pub new_uuid-bits :
    (u : Uuid)
    → All (λ b. b < 256) (uuid_bytes u)
    → ((new_uuid u).b6 / 16 ≡ 4)
      × ((new_uuid u).b6 % 16 ≡ u.b6 % 16)
      × ((new_uuid u).b8 / 64 ≡ 1)
      × ((new_uuid u).b8 % 64 ≡ u.b8 % 64)
unfolding new_uuid
new_uuid-bits u h =
    let b6 = h.1.1.1.1.1.1.0 in
    let b8 = h.1.1.1.1.1.1.1.1.0 in
    (high_b6 u.b6 b6, low_b6 u.b6 b6, high_b8 u.b8 b8, low_b8 u.b8 b8)

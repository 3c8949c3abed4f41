-- ===== src/PlatformConfig/Enforcement/Network.antt =====
-- Addresses and blocks of addresses
-- (`ipv4InCidr` of web-server/src/platform-config/enforcement.service.ts).
use native.Mathlib.Nat.{mul-div_cancel, one-le-pow}
use Prim.Native.Nat.{bit_and}
use multi_academy_backend.Prelude.{
  ℕ, zero, suc, All, All-map, ◌+◌, ◌-◌, ◌*◌, ◌/◌, ◌^◌, ◌≤◌, ◌<◌, String, ◌≡◌, ◌↔◌, ◌∙◌, sym, ap,
  refl, true, false, Option, some, List, [], ◌∷◌, arith, eqb, leb, split, Bool-cases, Option-cases,
  inl, inr,
}
use multi_academy_backend.PlatformConfig.Enforcement.{
  mask, same_network, byte, from_bytes, to_int, in_range, in_parts, ipv4_in_cidr,
}
use multi_academy_backend.PlatformConfig.Enforcement.Bits.{bit_and_leading, bit_and-zero}

-- The mask keeps the leading `bits` of an address of 32 bits.
bit_and-mask :
    (bits x : ℕ)
    → bits ≤ 32
    → x < 2 ^ 32
    → bit_and x (mask bits) ≡ x / 2 ^ (32 - bits) * 2 ^ (32 - bits)
unfolding mask
bit_and-mask zero x h below = omega (arith, bit_and-zero x)
bit_and-mask (suc n) x h below =
    let width : suc n + (32 - suc n) ≡ 32 = omega arith in
    let given : eqb (suc n) 0 ≡ false = ground arith in
    rw given (rw width at (bit_and_leading (suc n) (32 - suc n) x (rw width below)))

mul_cancel : (m q r : ℕ) → 0 < m → q * m ≡ r * m → q ≡ r
mul_cancel m q r h e = sym (mul-div_cancel q h) ∙ ap (λ (t : ℕ). t / m) e ∙ mul-div_cancel r h

same_network_iff :
    (bits a b : ℕ)
    → bits ≤ 32
    → a < 2 ^ 32
    → b < 2 ^ 32
    → (same_network bits a b ≡ true) ↔ (a / 2 ^ (32 - bits) ≡ b / 2 ^ (32 - bits))
unfolding same_network
same_network_iff bits a b h ha hb =
    let ea = bit_and-mask bits a h ha in
    let eb = bit_and-mask bits b h hb in
    let size : ℕ = 2 ^ (32 - bits) in
    (
      λ e.
          mul_cancel size (a / size) (b / size) (one-le-pow (32 - bits) 2 (omega arith))
            (ground (arith, ea, eb)),
      λ e. ground (arith, ea, eb),
    )

from_bytes-lt :
    (parts : List (Option ℕ)) {a : ℕ}
    → All (λ o. (n : ℕ) → o ≡ some n → n < 256) parts
    → from_bytes parts ≡ some a
    → a < 2 ^ 32
from_bytes-lt (some a ∷ some b ∷ some c ∷ some d ∷ []) (ha, (hb, (hc, (hd, _)))) e =
    ground (arith, ha a refl, hb b refl, hc c refl, hd d refl)
from_bytes-lt parts h e = cc

in_range_iff :
    (bits a b : ℕ)
    → a < 2 ^ 32
    → b < 2 ^ 32
    → (in_range (some a) (some b) (some bits) ≡ true)
      ↔ ((bits ≤ 32) × (a / 2 ^ (32 - bits) ≡ b / 2 ^ (32 - bits)))
in_range_iff bits a b ha hb = elim (Bool-cases (leb bits 32)) [
  | inl small ↦
      let (to, from) = same_network_iff bits a b (ground arith) ha hb in
      rw small (λ e. (ground arith, to e), λ p. from p.1)
  | inr large ↦ rw large (λ e. cc, λ p. ground arith)
]

module _ (number : String → Option ℕ) where
  byte-lt : (s : String) (n : ℕ) → byte number s ≡ some n → n < 256
  byte-lt s n e = elim (Option-cases (number s)) [
    | inl missing ↦ ground arith
    | inr (m, found) ↦ ground arith
  ]

  -- An address that is read has 32 bits.
  pub to_int-lt : (value : String) {a : ℕ} → to_int number value ≡ some a → a < 2 ^ 32
  unfolding to_int
  to_int-lt value e = from_bytes-lt _ (All-map _ (byte number) (split b'.' value) byte-lt) e

  -- For an address and a block that are well formed, the address is in the block exactly when the
  -- prefix has at most 32 bits and both have the same leading bits, as many as the prefix says.
  pub ipv4_in_cidr_iff :
      (ip cidr range bits_text : String) (rest : List String) (bits a b : ℕ)
      → split b'/' cidr ≡ range ∷ bits_text ∷ rest
      → to_int number ip ≡ some a
      → to_int number range ≡ some b
      → number bits_text ≡ some bits
      → (ipv4_in_cidr number ip cidr ≡ true)
        ↔ ((bits ≤ 32) × (a / 2 ^ (32 - bits) ≡ b / 2 ^ (32 - bits)))
  unfolding ipv4_in_cidr
  ipv4_in_cidr_iff ip cidr range bits_text rest bits a b parts ea eb ebits =
      rw (parts, ea, eb, ebits, in_parts)
        (in_range_iff bits a b (to_int-lt ip ea) (to_int-lt range eb))

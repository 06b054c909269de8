-- ===== src/Command/Wrappers/Laws.antt =====
-- On the Mach traps that commands call through the wrappers of fuzz/xnu/osfmk/api/osfmk_backend.c.
use Prim.Native.Nat.{max, digits, bit_or, bit_or-bitwise}
use sock_fuzzer.Common.{
  ℕ, zero, suc, ◌≡◌, refl, ap, sym, ◌∙◌, ◌+◌, ◌*◌, ◌/◌, ◌%◌, ◌^◌, ◌≤◌, ◌<◌, arith,
}
use native.Mathlib.Nat.{le_refl, mul_assoc, pow-suc}

-- Numbers whose digits do not meet.
or_digits : (n a k c : ℕ) → a ≤ n → a < 2 ^ k → digits (λ b. b) max n a (c * 2 ^ k) ≡ a + c * 2 ^ k
or_digits zero a k c h small = omega arith
or_digits (suc n) zero k c h small = omega arith
or_digits (suc n) (suc a) zero c h small = absurd (omega arith)
or_digits (suc n) (suc a) (suc k) c h small =
    let doubled : c * 2 ^ suc k ≡ c * 2 ^ k * 2 =
      ap (λ p. c * p) (pow-suc 2 k) ∙ sym (mul_assoc c (2 ^ k) 2) in
    let half : (c * 2 ^ suc k) / 2 ≡ c * 2 ^ k = omega (arith, doubled) in
    let even : (c * 2 ^ suc k) % 2 ≡ 0 = omega (arith, doubled) in
    let rest = or_digits n (suc a / 2) k c (omega arith) (omega arith) in
    let joined : digits (λ b. b) max n (suc a / 2) (c * 2 ^ suc k / 2) ≡ suc a / 2 + c * 2 ^ k =
      ap (digits (λ b. b) max n (suc a / 2)) half ∙ rest in
    let digit : max (suc a % 2) (c * 2 ^ suc k % 2) ≡ suc a % 2 =
      ap (max (suc a % 2)) even ∙ omega arith in
    omega (arith, joined, digit, doubled)

pub or_apart : (a k c : ℕ) → a < 2 ^ k → bit_or a (c * 2 ^ k) ≡ a + c * 2 ^ k
or_apart a k c small = bit_or-bitwise a (c * 2 ^ k) ∙ or_digits a a k c (le_refl a) small

-- The same with the higher digits first.
high_digits :
    (n h a k c : ℕ) → h ≡ c * 2 ^ k → h ≤ n → a < 2 ^ k → digits (λ b. b) max n h a ≡ h + a
high_digits zero h a k c high bound small = omega arith
high_digits (suc n) zero a k c high bound small = omega arith
high_digits (suc n) (suc h) a zero c high bound small =
    let none_left : a ≡ 0 = omega arith in
    let rest =
      high_digits n (suc h / 2) (a / 2) zero (suc h / 2) (omega arith) (omega arith)
        (omega arith) in
    omega (arith, rest)
high_digits (suc n) (suc h) a (suc k) c high bound small =
    let doubled : c * 2 ^ suc k ≡ c * 2 ^ k * 2 =
      ap (λ p. c * p) (pow-suc 2 k) ∙ sym (mul_assoc c (2 ^ k) 2) in
    let rest =
      high_digits n (suc h / 2) (a / 2) k c (omega (arith, doubled)) (omega arith) (omega arith) in
    omega (arith, rest, doubled)

pub apart_or : (c k a : ℕ) → a < 2 ^ k → bit_or (c * 2 ^ k) a ≡ c * 2 ^ k + a
apart_or c k a small =
    bit_or-bitwise (c * 2 ^ k) a ∙ high_digits (c * 2 ^ k) (c * 2 ^ k) a k c refl (le_refl _) small

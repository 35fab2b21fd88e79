-- ===== src/Samples/Masks.antt =====
-- The mask that leaves four ports open, as a port range.
use Prim.Native.Nat.{bit_and, bit_and-bitwise, digits, min}
use proxyengine.Base.{ℕ, zero, suc, ◌+◌, ◌*◌, ◌/◌, ◌%◌, ◌≤◌, ◌<◌, ◌≡◌, refl, ap, ◌∙◌, arith}
use proxyengine.Base.Words.{u16_mod}
use proxyengine.Manager.New.{IsPortRange}

-- The digits of a number and of a mask.
abbrev masked : ℕ → ℕ → ℕ → ℕ
masked n a b = digits (λ _. zero) min n a b

abbrev two_to : ℕ → ℕ
two_to zero = 1
two_to (suc k) = two_to k + two_to k

min_one : (a : ℕ) → a < 2 → min a 1 ≡ a
min_one a h = omega arith

min_zero : (a : ℕ) → min a 0 ≡ 0
min_zero a = omega arith

masked-zero : (n b : ℕ) → masked n 0 b ≡ 0
masked-zero zero b = refl
masked-zero (suc n) b = refl

-- A mask of `k` ones leaves a number of `k` digits alone.
masked-ones : (k n a b : ℕ) → a ≤ n → a < two_to k → b + 1 ≡ two_to k → masked n a b ≡ a
masked-ones k n zero b fuel small mask = masked-zero n b
masked-ones k zero (suc a) b fuel small mask = absurd (omega arith)
masked-ones zero (suc n) (suc a) b fuel small mask = absurd (omega arith)
masked-ones (suc k) (suc n) (suc a) b fuel small mask =
    rw (masked-ones k n (suc a / 2) (b / 2) (omega arith) (omega arith) (omega arith))
      (rw (odd) (rw (min_one (suc a % 2) (omega arith)) (omega arith)))
  where
    odd : b % 2 ≡ 1
    odd = omega arith

-- A mask with a 0 at the end drops the last digit.
masked-even : (n a b : ℕ) → b % 2 ≡ 0 → masked (suc n) a b ≡ masked n (a / 2) (b / 2) * 2
masked-even n zero b even = rw (masked-zero n (b / 2))
masked-even n (suc a) b even = rw even (rw (min_zero (suc a % 2)) (omega arith))

four_digits : (p : ℕ) → p < u16_mod → masked p p 65532 ≡ p / 4 * 4
four_digits zero small = refl
four_digits (suc zero) small = refl
four_digits (suc (suc zero)) small = refl
four_digits (suc (suc (suc p))) small =
    let q = suc (suc (suc p)) in
    masked-even (suc (suc p)) q 65532 (omega arith)
    ∙ ap (λ d. d * 2) (masked-even (suc p) (q / 2) 32766 (omega arith))
    ∙ ap (λ d. d * 2 * 2)
        (masked-ones 14 (suc p) (q / 2 / 2) 16383 (omega arith) (omega arith) (omega arith))
    ∙ omega arith

four_ports : (p : ℕ) → p < u16_mod → bit_and p 65532 ≡ p / 4 * 4
four_ports p small = bit_and-bitwise p 65532 ∙ four_digits p small

pub small-IsPortRange : IsPortRange 65532 4000
small-IsPortRange = record {
  mask_u16 = omega arith;
  fits = omega arith;
  usable = omega arith;
  selects = λ p small. ground (arith, four_ports p small);
}

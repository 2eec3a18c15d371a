-- ===== src/Bracket/Power.antt =====
-- `nextPow2`: the least power of two that is not below the value.
use tournament_hub.Common.{
  ℕ, zero, suc, ◌+◌, ◌*◌, ◌≤◌, ◌<◌, ◌≡◌, refl, ◌⊎◌, inl, inr, arith, ltb, Bool-cases,
}
use Prim.Native.Nat.{◌^◌}
use Prim.Native.Nat.pow
use native.Mathlib.Nat.{le_refl}
use tournament_hub.Bracket.{next_pow2, next_pow2_from}

-- The result is a power of two, reaches the value, and half of it does not, unless it is 1.
pub record IsLeastPower (power value : ℕ) : Type 0 where
  pub exponent : ℕ
  pub is_power : power ≡ 2 ^ exponent
  pub reaches : value ≤ power
  pub least : (power ≡ 1) ⊎ (power < value * 2)

next_pow2_from-IsLeastPower :
    (fuel power value exponent : ℕ)
    → power ≡ 2 ^ exponent
    → 1 ≤ power
    → (power ≡ 1) ⊎ (power < value * 2)
    → value ≤ power + fuel
    → IsLeastPower (next_pow2_from fuel power value) value
unfolding next_pow2_from
next_pow2_from-IsLeastPower zero power value exponent e one below enough = record {
  exponent = exponent;
  is_power = e;
  reaches = omega (arith, enough);
  least = below;
}
next_pow2_from-IsLeastPower (suc fuel) power value exponent e one below enough =
    elim (Bool-cases (ltb power value)) [
      | inl more ↦ rw more (
          next_pow2_from-IsLeastPower fuel (power * 2) value (suc exponent)
            (rw e (omega (arith, pow.suc 2 exponent))) (omega arith) (inr (ground (arith, more)))
            (omega (arith, enough)))
      | inr there ↦ rw there (record {
        exponent = exponent;
        is_power = e;
        reaches = ground (arith, there);
        least = below;
      })
    ]

-- `nextPow2` returns the least power of two that is at least the value.
pub next_pow2-IsLeastPower : (value : ℕ) → IsLeastPower (next_pow2 value) value
unfolding next_pow2
next_pow2-IsLeastPower value =
    next_pow2_from-IsLeastPower value 1 value 0 refl (le_refl 1) (inl refl) (omega arith)

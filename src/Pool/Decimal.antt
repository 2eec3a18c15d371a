-- ===== src/Pool/Decimal.antt =====
-- The decimal numerals of numbers, read back.
use tournament_hub.Common.{
  ℕ, zero, suc, ◌+◌, ◌-◌, ◌*◌, ◌/◌, ◌%◌, ◌<◌, ◌≡◌, refl, List, [], ◌∷◌, ◌++◌, arith, drop, ltb,
  Bool-cases, inl, inr,
}
use tournament_hub.Pool.Identifier.{decimal, numbered}

-- The number that the digits stand for, after those already read.
abbrev value : ℕ → List ℕ → ℕ
value read [] = read
value read (c ∷ rest) = value (read * 10 + (c - 48)) rest

value-snoc : (read c : ℕ) (l : List ℕ) → value read (l ++ c ∷ []) ≡ value read l * 10 + (c - 48)
value-snoc read c [] = refl
value-snoc read c (d ∷ l) = value-snoc (read * 10 + (d - 48)) c l

value-decimal : (fuel n : ℕ) → n < fuel → value 0 (decimal fuel n) ≡ n
unfolding decimal
value-decimal zero n h = elim h [ ]
value-decimal (suc fuel) n h = elim (Bool-cases (ltb n 10)) [
  | inl e ↦ rw e (omega arith)
  | inr e ↦
      let less : n / 10 < fuel = ground (arith, e, h) in
      let high = value-decimal fuel (n / 10) less in
      rw e (omega (arith, high, value-snoc 0 (48 + n % 10) (decimal fuel (n / 10))))
]

-- The number that a text names when it is "Pool" and a number.
abbrev pub number_of : List ℕ → ℕ
number_of text = value 0 (drop 5 text)

pub number_of-numbered : (n : ℕ) → number_of (numbered n) ≡ n
unfolding numbered
number_of-numbered n = value-decimal (suc n) n (omega arith)

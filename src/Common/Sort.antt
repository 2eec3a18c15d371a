-- ===== src/Common/Sort.antt =====
-- `Array.prototype.sort` with a comparator: a stable sort. `less a b` stands for
-- `comparator(a, b) < 0`; elements of which neither comes first keep their order.
use mathlib.Core.Path.{◌≡◌, refl}
use mathlib.Core.Logic.{inl, inr}
use mathlib.Core.Bool.{Bool, true, false}
use mathlib.Core.Option.{none, some}
use mathlib.Core.List.{List, [], ◌∷◌, Perm, head?}
use mathlib.Core.List.Perm
use Prim.Native.Nat.{ℕ, suc, ◌+◌}
use native.Mathlib.Omega.{arith}
use tournament_hub.Common.Tests.{if◌then◌else◌, Bool-cases}
use tournament_hub.Common.Lists.{All, All-map, count_if, length, sum_by}

module _ {ℓ} {A : Type ℓ} (less : A → A → Bool) where
  pub insert_by : A → List A → List A
  insert_by x [] = x ∷ []
  insert_by x (y ∷ ys) = if less y x then y ∷ insert_by x ys else x ∷ y ∷ ys

  unfoldable pub sort_by : List A → List A
  unfolding insert_by
  sort_by [] = []
  sort_by (x ∷ xs) = insert_by x (sort_by xs)

  -- No later element comes strictly before an earlier one.
  abbrev pub IsSorted : List A → Type 0
  IsSorted [] = Unit
  IsSorted (x ∷ xs) = All (λ y. less y x ≡ false) xs × IsSorted xs

  insert_by-perm : (x : A) (ys : List A) → Perm (insert_by x ys) (x ∷ ys)
  unfolding insert_by
  insert_by-perm x [] = Perm.rfl
  insert_by-perm x (y ∷ ys) = elim (Bool-cases (less y x)) [
    | inl e ↦ rw (e, insert_by) (Perm.trans (Perm.cons y (insert_by-perm x ys)) (Perm.swap x y ys))
    | inr e ↦ rw (e, insert_by) Perm.rfl
  ]

  pub sort_by-perm : (xs : List A) → Perm (sort_by xs) xs
  unfolding sort_by
  sort_by-perm [] = Perm.rfl
  sort_by-perm (x ∷ xs) = Perm.trans (insert_by-perm x (sort_by xs)) (Perm.cons x (sort_by-perm xs))

  count_if-insert_by :
      (p : A → Bool) (x : A) (ys : List A) → count_if p (insert_by x ys) ≡ count_if p (x ∷ ys)
  unfolding insert_by
  count_if-insert_by p x [] = refl
  count_if-insert_by p x (y ∷ ys) = elim (Bool-cases (less y x)) [
    | inl e ↦ rw (e, insert_by) (omega (arith, count_if-insert_by p x ys))
    | inr e ↦ rw (e, insert_by) refl
  ]

  pub count_if-sort_by : (p : A → Bool) (xs : List A) → count_if p (sort_by xs) ≡ count_if p xs
  unfolding sort_by
  count_if-sort_by p [] = refl
  count_if-sort_by p (x ∷ xs) =
      omega (arith, count_if-insert_by p x (sort_by xs), count_if-sort_by p xs)

  sum_by-insert_by :
      (f : A → ℕ) (x : A) (ys : List A) → sum_by f (insert_by x ys) ≡ f x + sum_by f ys
  unfolding insert_by
  sum_by-insert_by f x [] = refl
  sum_by-insert_by f x (y ∷ ys) = elim (Bool-cases (less y x)) [
    | inl e ↦ rw (e, insert_by) (omega (arith, sum_by-insert_by f x ys))
    | inr e ↦ rw (e, insert_by) refl
  ]

  pub sum_by-sort_by : (f : A → ℕ) (xs : List A) → sum_by f (sort_by xs) ≡ sum_by f xs
  unfolding sort_by
  sum_by-sort_by f [] = refl
  sum_by-sort_by f (x ∷ xs) = omega (arith, sum_by-insert_by f x (sort_by xs), sum_by-sort_by f xs)

  module _ {κ} (P : A → Type κ) where
    pub All-insert_by : (x : A) (ys : List A) → P x → All P ys → All P (insert_by x ys)
    unfolding insert_by
    All-insert_by x [] hx hy = (hx, tt)
    All-insert_by x (y ∷ ys) hx hy = elim (Bool-cases (less y x)) [
      | inl e ↦ rw (e, insert_by) (hy.0, All-insert_by x ys hx hy.1)
      | inr e ↦ rw (e, insert_by) (hx, hy)
    ]

    pub All-sort_by : (xs : List A) → All P xs → All P (sort_by xs)
    unfolding sort_by
    All-sort_by [] h = tt
    All-sort_by (x ∷ xs) h = All-insert_by x (sort_by xs) h.0 (All-sort_by xs h.1)

  -- What a comparator has to satisfy for the sort to be meaningful.
  pub record IsOrder : Type ℓ where
    pub asymm : (a b : A) → less a b ≡ true → less b a ≡ false
    pub chain : (a b c : A) → less b a ≡ false → less c b ≡ false → less c a ≡ false

  module _ (o : IsOrder) where
    insert_by-IsSorted : (x : A) (ys : List A) → IsSorted ys → IsSorted (insert_by x ys)
    unfolding insert_by
    insert_by-IsSorted x [] h = (tt, tt)
    insert_by-IsSorted x (y ∷ ys) h = elim (Bool-cases (less y x)) [
      | inl e ↦
          rw (e, insert_by)
            (
              All-insert_by (λ z. less z y ≡ false) x ys (o.asymm y x e) h.0,
              insert_by-IsSorted x ys h.1,
            )
      | inr e ↦
          rw (e, insert_by)
            ((e, All-map (λ z. less z y ≡ false) (λ z hz. o.chain x y z e hz) ys h.0), h)
    ]

    pub sort_by-IsSorted : (xs : List A) → IsSorted (sort_by xs)
    unfolding sort_by
    sort_by-IsSorted [] = tt
    sort_by-IsSorted (x ∷ xs) = insert_by-IsSorted x (sort_by xs) (sort_by-IsSorted xs)

  -- Sorted by a comparator, a list is sorted by a coarser order too.
  module _ (coarse : A → A → Bool)
      (chain : (a b c : A) → coarse b a ≡ false → coarse c b ≡ false → coarse c a ≡ false)
      (before : (a b : A) → less a b ≡ true → coarse b a ≡ false)
      (not_before : (a b : A) → less a b ≡ false → coarse a b ≡ false) where
    abbrev pub IsCoarselySorted : List A → Type 0
    IsCoarselySorted [] = Unit
    IsCoarselySorted (x ∷ xs) = All (λ y. coarse y x ≡ false) xs × IsCoarselySorted xs

    insert_by-IsCoarselySorted :
        (x : A) (ys : List A) → IsCoarselySorted ys → IsCoarselySorted (insert_by x ys)
    unfolding insert_by
    insert_by-IsCoarselySorted x [] h = (tt, tt)
    insert_by-IsCoarselySorted x (y ∷ ys) h = elim (Bool-cases (less y x)) [
      | inl e ↦
          rw (e, insert_by)
            (
              All-insert_by (λ z. coarse z y ≡ false) x ys (before y x e) h.0,
              insert_by-IsCoarselySorted x ys h.1,
            )
      | inr e ↦
          let front = not_before y x e in
          rw (e, insert_by)
            ((front, All-map (λ z. coarse z y ≡ false) (λ z hz. chain x y z front hz) ys h.0), h)
    ]

    pub sort_by-IsCoarselySorted : (xs : List A) → IsCoarselySorted (sort_by xs)
    unfolding sort_by
    sort_by-IsCoarselySorted [] = tt
    sort_by-IsCoarselySorted (x ∷ xs) =
        insert_by-IsCoarselySorted x (sort_by xs) (sort_by-IsCoarselySorted xs)

  length-insert_by : (x : A) (ys : List A) → length (insert_by x ys) ≡ suc (length ys)
  unfolding insert_by
  length-insert_by x [] = refl
  length-insert_by x (y ∷ ys) = ground (arith, length-insert_by x ys)

  pub length-sort_by : (xs : List A) → length (sort_by xs) ≡ length xs
  unfolding sort_by
  length-sort_by [] = refl
  length-sort_by (x ∷ xs) = omega (arith, length-insert_by x (sort_by xs), length-sort_by xs)

  -- The head of a sorted list, one insertion at a time.
  pub head?-sort_by-cons :
      (x : A) (xs : List A)
      → head? (sort_by (x ∷ xs))
        ≡ some (elim (head? (sort_by xs)) [ none ↦ x | some y ↦ if less y x then y else x ])
  unfolding sort_by
  head?-sort_by-cons x xs = of_list (sort_by xs)
    where
      of_list :
          (l : List A)
          → head? (insert_by x l)
            ≡ some (elim (head? l) [ none ↦ x | some y ↦ if less y x then y else x ])
      of_list [] = refl
      of_list (y ∷ ys) = ground arith

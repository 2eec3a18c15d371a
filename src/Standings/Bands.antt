-- ===== src/Standings/Bands.antt =====
-- The places of the rows of a division.
use tournament_hub.Common.{
  ℕ, zero, suc, ◌+◌, ◌≤◌, ◌≡◌, refl, ap, ◌∙◌, inl, inr, Bool, true, false, not, ◌&&◌, ◌||◌, List,
  [], ◌∷◌, ◌++◌, map, arith, Bool-cases, ltb, ◌==◌, All, sym, All-of_each, All-map, All-both,
  All-both, count_if, length, take, drop,
}
use tournament_hub.Common.Sort.{
  IsOrder, IsSorted, sort_by, sort_by-IsCoarselySorted, length-sort_by, count_if-sort_by,
}
use tournament_hub.Standings.{
  Exit, DivisionPlacementRow, same_band, band_length, row_of, rows_from, exits_before, band_rows,
}

-- The exit is closer to the end, or as close with a better placement.
abbrev pub band_before : Exit → Exit → Bool
band_before left right =
    ltb left.stop.depth right.stop.depth
    || ((left.stop.depth == right.stop.depth) && ltb left.stop.placement right.stop.placement)

abbrev pub ahead : Exit → List Exit → ℕ
ahead e l = count_if (λ f. band_before f e) l

abbrev pub not_behind : Exit → List Exit → ℕ
not_behind e l = count_if (λ f. not (band_before e f)) l

band_before-IsOrder : IsOrder band_before
band_before-IsOrder = record {
  asymm = λ a b h. ground (arith, h);
  chain = λ a b c h k. ground (arith, h, k);
}

ahead-band : (a b : Exit) (l : List Exit) → same_band a b ≡ true → ahead b l ≡ ahead a l
ahead-band a b [] h = refl
ahead-band a b (x ∷ l) h = ground (arith, h, ahead-band a b l h)

not_behind-band :
    (a b : Exit) (l : List Exit) → same_band a b ≡ true → not_behind b l ≡ not_behind a l
not_behind-band a b [] h = refl
not_behind-band a b (x ∷ l) h = ground (arith, h, not_behind-band a b l h)

ahead-none : (e : Exit) (l : List Exit) → All (λ y. band_before y e ≡ false) l → ahead e l ≡ 0
ahead-none e [] h = refl
ahead-none e (x ∷ l) h = ground (arith, h.0, ahead-none e l h.1)

not_behind-none :
    (e : Exit) (l : List Exit) → All (λ y. band_before e y ≡ true) l → not_behind e l ≡ 0
not_behind-none e [] h = refl
not_behind-none e (x ∷ l) h = ground (arith, h.0, not_behind-none e l h.1)

length-drop-le : (n : ℕ) (l : List Exit) → length (drop n l) ≤ length l
length-drop-le zero l = omega arith
length-drop-le (suc n) [] = omega arith
length-drop-le (suc n) (x ∷ l) = omega (arith, length-drop-le n l)

All-drop {κ} : (P : Exit → Type κ) (n : ℕ) (l : List Exit) → All P l → All P (drop n l)
All-drop P zero l h = h
All-drop P (suc n) [] h = tt
All-drop P (suc n) (x ∷ l) h = All-drop P n l h.1

IsSorted-drop : (n : ℕ) (l : List Exit) → IsSorted band_before l → IsSorted band_before (drop n l)
IsSorted-drop zero l h = h
IsSorted-drop (suc n) [] h = tt
IsSorted-drop (suc n) (x ∷ l) h = IsSorted-drop n l h.1

map-take-drop {ℓ} :
    {B : Type ℓ} (f : Exit → B) (n : ℕ) (l : List Exit)
    → map f (take n l) ++ map f (drop n l) ≡ map f l
map-take-drop f zero l = refl
map-take-drop f (suc n) [] = refl
map-take-drop f (suc n) (x ∷ l) = ap (◌∷◌ (f x)) (map-take-drop f n l)

-- What follows the band of a sorted list's first exit stands behind it.
drop-band_length :
    (e : Exit) (l : List Exit)
    → IsSorted band_before (e ∷ l)
    → All (λ x. band_before e x ≡ true) (drop (band_length e l) l)
unfolding band_length
drop-band_length e [] h = tt
drop-band_length e (x ∷ l) h = elim (Bool-cases (same_band e x)) [
  | inl k ↦ rw (band_length, k) (drop-band_length e l (h.0.1, h.1.1))
  | inr k ↦
      let front : band_before e x ≡ true = ground (arith, k, h.0.0) in
      rw (band_length, k)
        (front, All-map (λ y. band_before y x ≡ false) (λ y hy. ground (arith, front, hy)) l h.1.0)
]

-- The band of an exit is ahead of what stands behind the exit.
ahead-drop :
    (e x : Exit) (l : List Exit)
    → band_before e x ≡ true
    → ahead x l ≡ band_length e l + ahead x (drop (band_length e l) l)
unfolding band_length
ahead-drop e x [] h = refl
ahead-drop e x (y ∷ l) h = elim (Bool-cases (same_band e y)) [
  | inl k ↦ rw (band_length, k) (ground (arith, h, k, ahead-drop e x l h))
  | inr k ↦ rw (band_length, k) (omega arith)
]

not_behind-drop :
    (e x : Exit) (l : List Exit)
    → band_before x e ≡ false
    → not_behind x l ≡ band_length e l + not_behind x (drop (band_length e l) l)
unfolding band_length
not_behind-drop e x [] h = refl
not_behind-drop e x (y ∷ l) h = elim (Bool-cases (same_band e y)) [
  | inl k ↦ rw (band_length, k) (ground (arith, h, k, not_behind-drop e x l h))
  | inr k ↦ rw (band_length, k) (omega arith)
]

module _ (l : List Exit) where
  -- The row of an exit: its place is one more than the exits ahead of it, and it shares the places up
  -- to the number of those that are not behind it.
  abbrev pub ranked : Exit → DivisionPlacementRow
  ranked e = record {
    entrant = e.entrant;
    placement = ahead e l + 1;
    shared_through = not_behind e l;
    exit_kind = e.stop.node.kind;
    exit_id = e.stop.node.id;
    exit_name = e.stop.node.name;
    run = e.run;
  }

  map-take-ranked :
      (e : Exit) (rest : List Exit)
      → map (row_of (ahead e l) (not_behind e l)) (take (band_length e rest) rest)
        ≡ map ranked (take (band_length e rest) rest)
  unfolding band_length
  map-take-ranked e [] = refl
  map-take-ranked e (x ∷ rest) = elim (Bool-cases (same_band e x)) [
    | inl k ↦
        rw (band_length, k, ahead-band e x l k, not_behind-band e x l k)
          (ap (◌∷◌ (row_of (ahead e l) (not_behind e l) x)) (map-take-ranked e rest))
    | inr k ↦ rw (band_length, k) refl
  ]

  -- The exits before `rest` are ahead of all of it, `index` of them.
  record IsTail (index : ℕ) (rest : List Exit) : Type 0 where
    sorted : IsSorted band_before rest
    places :
        All
          (λ x. (ahead x l ≡ index + ahead x rest) × (not_behind x l ≡ index + not_behind x rest))
          rest

  head-ranked :
      (index : ℕ) (e : Exit) (rest : List Exit)
      → IsTail index (e ∷ rest)
      → (ahead e l ≡ index) × (not_behind e l ≡ index + suc (band_length e rest))
  head-ranked index e rest t =
      let self : band_before e e ≡ false = ground arith in
      (
        omega (arith, t.places.0.0, ahead-none e (e ∷ rest) (self, t.sorted.0)),
        ground (
          arith,
          t.places.0.1,
          self,
          not_behind-drop e e rest self,
          not_behind-none e (drop (band_length e rest) rest) (drop-band_length e rest t.sorted),
        ),
      )

  drop-IsTail :
      (index : ℕ) (e : Exit) (rest : List Exit)
      → IsTail index (e ∷ rest)
      → IsTail (index + suc (band_length e rest)) (drop (band_length e rest) rest)
  drop-IsTail index e rest t =
      let later = drop (band_length e rest) rest in
      record {
        sorted = IsSorted-drop (band_length e rest) rest t.sorted.1;
        places =
            All-map
              (λ x.
                ((ahead x l ≡ index + ahead x (e ∷ rest))
                  × (not_behind x l ≡ index + not_behind x (e ∷ rest)))
                × (band_before e x ≡ true))
              (λ x h.
                let back = band_before-IsOrder.asymm e x h.1 in
                (
                  ground (arith, h.0.0, h.1, ahead-drop e x rest h.1),
                  ground (arith, h.0.1, back, not_behind-drop e x rest back),
                ))
              later
              (All-both _ _ later (All-drop _ (band_length e rest) rest t.places.1)
                (drop-band_length e rest t.sorted));
      }

  rows_from-ranked :
      (fuel index : ℕ) (rest : List Exit)
      → length rest ≤ fuel
      → IsTail index rest
      → rows_from fuel index rest ≡ map ranked rest
  unfolding rows_from
  rows_from-ranked zero index [] h t = refl
  rows_from-ranked zero index (e ∷ rest) h t = absurd (omega (arith, h))
  rows_from-ranked (suc fuel) index [] h t = refl
  rows_from-ranked (suc fuel) index (e ∷ rest) h t =
      let n = band_length e rest in
      let at = head-ranked index e rest t in
      let heads = rw (at.0, at.1) at (map-take-ranked e rest) in
      let later =
        rows_from-ranked fuel (index + suc n) (drop n rest)
          (omega (arith, h, length-drop-le n rest)) (drop-IsTail index e rest t) in
      rw (at.0, at.1)
        (ap (◌∷◌ (row_of index (index + suc n) e)) (
          ap (λ rows. rows ++ rows_from fuel (index + suc n) (drop n rest)) heads
          ∙ ap (◌++◌ (map ranked (take n rest))) later
          ∙ map-take-drop ranked n rest))

module _ (name_before : List ℕ → List ℕ → Bool) where
  exits_before-IsSorted :
      (exits : List Exit) → IsSorted band_before (sort_by (exits_before name_before) exits)
  exits_before-IsSorted exits =
      sort_by-IsCoarselySorted (exits_before name_before) band_before band_before-IsOrder.chain
        (λ a b h. ground (arith, h)) (λ a b h. ground (arith, h)) exits

  -- `bandRows` gives the exits one row each, in order; a row's place is one more than the number of
  -- exits that are closer to the end, or as close with a better placement, and it shares the places up to
  -- the number of exits that are not further from the end, nor as close with a worse placement.
  pub band_rows-ranked :
      (exits : List Exit)
      → band_rows name_before exits ≡ map (ranked exits) (sort_by (exits_before name_before) exits)
  unfolding band_rows
  band_rows-ranked exits =
      let ordered = sort_by (exits_before name_before) exits in
      rows_from-ranked exits (length exits) 0 ordered
        (omega (arith, length-sort_by (exits_before name_before) exits))
        (record {
          sorted = exits_before-IsSorted exits;
          places =
              All-of_each _
                (λ x. (
                  sym (count_if-sort_by (exits_before name_before) (λ f. band_before f x) exits)
                      ∙ omega arith,
                  sym (
                        count_if-sort_by (exits_before name_before) (λ f. not (band_before x f))
                          exits)
                      ∙ omega arith,
                ))
                ordered;
        })

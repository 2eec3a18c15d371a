-- ===== src/Catalog/Drawn.antt =====
-- The songs that `roll` draws.
use tournament_hub.Common.{
  ℕ, zero, suc, ◌≢◌, ◌||◌, ◌+◌, ◌≤◌, ◌<◌, ◌≡◌, refl, ap, subst, ◌⊎◌, inl, inr, Bool, true, false,
  not, List, [], ◌∷◌, arith, ◌==◌, ==_iff, if◌then◌else◌, Bool-cases, Option, Option-cases, none,
  some, is_some, or_else, any, filter, get_elem?, count_if, length, map, All, All-map,
}
use tournament_hub.Catalog.{Song, SongRollSlot, is_candidate, any_of, roll_from, roll}

abbrev pub rolls : ℕ → SongRollSlot → Bool
rolls id slot = elim slot.song [ none ↦ false | some s ↦ s.id == id ]

filter-All : (p : Song → Bool) (l : List Song) → All (λ (s : Song). p s ≡ true) (filter p l)
filter-All p [] = tt
filter-All p (x ∷ l) = elim (Bool-cases (p x)) [
  | inl e ↦ rw e (e, filter-All p l)
  | inr e ↦ rw e (filter-All p l)
]

All-get_elem? {κ} :
    (P : Song → Type κ) (l : List Song) (i : ℕ) (s : Song) → All P l → get_elem? l i ≡ some s → P s
All-get_elem? P [] i s all h = cc
All-get_elem? P (x ∷ l) zero s all h = subst P (ground (arith, h)) all.0
All-get_elem? P (x ∷ l) (suc i) s all h = All-get_elem? P l i s all.1 h

get_elem?-none {ℓ} : {A : Type ℓ} (l : List A) (i : ℕ) → i < length l → get_elem? l i ≢ none
get_elem?-none [] i h = elim h [ ]
get_elem?-none (x ∷ l) zero h = λ e. cc
get_elem?-none (x ∷ l) (suc i) h = get_elem?-none l i (omega (arith, h))

filter-empty :
    (p : Song → Bool) (l : List Song) → filter p l ≡ [] → All (λ (s : Song). p s ≡ false) l
filter-empty p [] h = tt
filter-empty p (x ∷ l) h = (ground (arith, h), filter-empty p l (ground (arith, h)))

-- The song was excluded, or is drawn in one of the slots.
abbrev pub is_used : List ℕ → List SongRollSlot → Song → Bool
is_used taken slots s = any (◌==◌ s.id) taken || any (rolls s.id) slots

abbrev pub is_of_level : SongRollSlot → Bool
is_of_level slot = elim slot.song [ none ↦ true | some s ↦ s.difficulty == slot.level ]

module _ (index : ℕ → ℕ → ℕ) (available : List Song) where
  roll_from-once :
      (draw : ℕ) (taken levels : List ℕ) (id : ℕ)
      → count_if (rolls id) (roll_from index draw available taken levels)
          + (if any (◌==◌ id) taken then 1 else 0)
        ≤ 1
  unfolding roll_from
  roll_from-once draw taken [] id = ground arith
  roll_from-once draw taken (level ∷ rest) id =
      let candidates = filter (is_candidate level taken) available in
      elim (Option-cases (any_of index draw candidates)) [
        | inl e ↦ ground (arith, e, roll_from-once (suc draw) taken rest id)
        | inr (s, e) ↦
            let fit =
              All-get_elem? (λ (x : Song). is_candidate level taken x ≡ true) candidates _ s
                (filter-All (is_candidate level taken) available) e in
            let later = roll_from-once (suc draw) (s.id ∷ taken) rest id in
            elim (Bool-cases (s.id == id)) [
              | inl same ↦
                  let eq = (==_iff s.id id).0 same in
                  let fresh : any (◌==◌ id) taken ≡ false =
                    subst (λ n. any (◌==◌ n) taken ≡ false) eq (ground (arith, fit)) in
                  ground (arith, e, same, fresh, later, ==_iff id s.id, eq)
              | inr other ↦ ground (arith, e, other, later, ==_iff id s.id, ==_iff s.id id)
            ]
      ]

  roll_from-levels :
      (draw : ℕ) (taken levels : List ℕ)
      → (map (λ (x : SongRollSlot). x.level) (roll_from index draw available taken levels) ≡ levels)
        × All
            (λ (x : SongRollSlot). is_of_level x ≡ true)
            (roll_from index draw available taken levels)
  unfolding roll_from
  roll_from-levels draw taken [] = (refl, tt)
  roll_from-levels draw taken (level ∷ rest) =
      let candidates = filter (is_candidate level taken) available in
      elim (Option-cases (any_of index draw candidates)) [
        | inl e ↦
            let (same, all) = roll_from-levels (suc draw) taken rest in
            rw (roll_from, e) (ap (◌∷◌ level) same, (refl, all))
        | inr (s, e) ↦
            let (same, all) = roll_from-levels (suc draw) (s.id ∷ taken) rest in
            let fit =
              All-get_elem? (λ (x : Song). is_candidate level taken x ≡ true) candidates _ s
                (filter-All (is_candidate level taken) available) e in
            rw (roll_from, e) (ap (◌∷◌ level) same, (ground (arith, fit), all))
      ]

  -- Every song of the level was excluded or is drawn, unless the slot has one.
  abbrev pub IsSpent : List ℕ → List SongRollSlot → SongRollSlot → Type 0
  IsSpent taken slots slot =
      (is_some slot.song ≡ true)
      ⊎ All (λ (s : Song). (not (s.difficulty == slot.level) || is_used taken slots s) ≡ true)
          available

  IsSpent-more :
      (t t' : List ℕ) (slots slots' : List SongRollSlot) (x : SongRollSlot)
      → ((s : Song) → is_used t slots s ≡ true → is_used t' slots' s ≡ true)
      → IsSpent t slots x
      → IsSpent t' slots' x
  IsSpent-more t t' slots slots' x more (inl e) = inl e
  IsSpent-more t t' slots slots' x more (inr all) = inr (
      All-map (λ (s : Song). (not (s.difficulty == x.level) || is_used t slots s) ≡ true)
        (λ s h. elim (Bool-cases (is_used t slots s)) [
          | inl u ↦ ground (arith, more s u)
          | inr u ↦ ground (arith, h, u)
        ])
        available all)

  no_candidates :
      (draw : ℕ) (l : List Song)
      → ((d n : ℕ) → index d (suc n) ≤ n)
      → any_of index draw l ≡ none
      → l ≡ []
  no_candidates draw [] range e = refl
  no_candidates draw (x ∷ l) range e = absurd (
      get_elem?-none (x ∷ l) (index draw (suc (length l))) (omega (arith, range draw (length l))) e)

  roll_from-IsSpent :
      (draw : ℕ) (taken levels : List ℕ)
      → ((d n : ℕ) → index d (suc n) ≤ n)
      → All
          (IsSpent taken (roll_from index draw available taken levels))
          (roll_from index draw available taken levels)
  unfolding roll_from
  roll_from-IsSpent draw taken [] range = tt
  roll_from-IsSpent draw taken (level ∷ rest) range =
      let candidates = filter (is_candidate level taken) available in
      let all_slots = roll_from index draw available taken (level ∷ rest) in
      elim (Option-cases (any_of index draw candidates)) [
        | inl e ↦
            let slots = roll_from index (suc draw) available taken rest in
            let none_fits =
              filter-empty (is_candidate level taken) available
                (no_candidates draw candidates range e) in
            rw (roll_from, e)
              (
                inr (
                    All-map (λ (s : Song). is_candidate level taken s ≡ false)
                      (λ s h. ground (arith, h)) available none_fits),
                All-map (IsSpent taken slots)
                    (λ x f.
                      IsSpent-more taken taken slots all_slots x (λ s u. ground (arith, e, u)) f)
                    slots (roll_from-IsSpent (suc draw) taken rest range),
              )
        | inr (s, e) ↦
            let slots = roll_from index (suc draw) available (s.id ∷ taken) rest in
            rw (roll_from, e)
              (
                inl refl,
                All-map (IsSpent (s.id ∷ taken) slots)
                    (λ x f.
                      IsSpent-more (s.id ∷ taken) taken slots all_slots x
                        (λ y u. ground (arith, e, u, ==_iff y.id s.id, ==_iff s.id y.id)) f)
                    slots (roll_from-IsSpent (suc draw) (s.id ∷ taken) rest range),
              )
      ]

  -- `roll` gives one slot for each level asked for, in order. A drawn song is of its slot's level; no song
  -- is drawn twice, and none that was excluded. A slot is empty only when every available song of its level
  -- was excluded or is drawn in another slot, if the index drawn is always that of a candidate.
  pub roll-IsSpent :
      (exclude : Option (List ℕ)) (levels : List ℕ)
      → ((d n : ℕ) → index d (suc n) ≤ n)
      → (map (λ (x : SongRollSlot). x.level) (roll index available exclude levels) ≡ levels)
        × All (λ (x : SongRollSlot). is_of_level x ≡ true) (roll index available exclude levels)
        × ((id : ℕ)
            → count_if (rolls id) (roll index available exclude levels)
                + (if any (◌==◌ id) (or_else exclude []) then 1 else 0)
              ≤ 1)
        × All
            (IsSpent (or_else exclude []) (roll index available exclude levels))
            (roll index available exclude levels)
  unfolding roll
  roll-IsSpent exclude levels range =
      let (same, fit) = roll_from-levels 0 (or_else exclude []) levels in
      (
        same,
        fit,
        roll_from-once 0 (or_else exclude []) levels,
        roll_from-IsSpent 0 (or_else exclude []) levels range,
      )

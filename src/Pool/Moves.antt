-- ===== src/Pool/Moves.antt =====
-- `place`, `release` and `markAdvanced`, one after the other.
use mathlib.Core.List.{append-nil}
use tournament_hub.Common.{
  ℕ, ◌≡◌, refl, ap, ◌∙◌, sym, inl, inr, true, not, List, [], ◌∷◌, ◌++◌, map, arith, ◌==◌, ==_self,
  Bool-cases, Option, Option-cases, none, some, or_else, any, find, filter, All,
}
use tournament_hub.Match.Model.{Entrant}
use tournament_hub.Pool.{
  PhaseGroupEntrant, active_seat, PhaseGroupAggregate, Placement, is_seat_of, new_seat, place,
  release, mark_advanced, next_slot, highest_slot, write_seat, taken_slot, without_seat,
  advance_seat, dropped_id, with_seats,
}
use tournament_hub.Pool.Seats.{find-write_seat, filter-write_seat}
use tournament_hub.Pool.Valid.{seats_for}

find-append :
    (id : ℕ) (seats : List PhaseGroupEntrant) (s : PhaseGroupEntrant)
    → find (is_seat_of id) seats ≡ none
    → find (is_seat_of id) (seats ++ s ∷ []) ≡ find (is_seat_of id) (s ∷ [])
find-append id [] s h = refl
find-append id (x ∷ seats) s h = ground (arith, h, find-append id seats s)

find-seats_for :
    (seats : List PhaseGroupEntrant) (p : Placement)
    → find (is_seat_of p.entrant.id) (seats_for seats p)
      ≡ some (or_else (find (is_seat_of p.entrant.id) seats) (new_seat p.entrant))
find-seats_for seats p = elim (Option-cases (find (is_seat_of p.entrant.id) seats)) [
  | inr (s, e) ↦ ground (arith, e)
  | inl e ↦
      ground (arith, e, find-append p.entrant.id seats (new_seat p.entrant) e, ==_self p.entrant.id)
]

filter-append :
    (id : ℕ) (seats : List PhaseGroupEntrant) (s : PhaseGroupEntrant)
    → is_seat_of id s ≡ true
    → filter (λ x. not (is_seat_of id x)) (seats ++ s ∷ [])
      ≡ filter (λ x. not (is_seat_of id x)) seats
filter-append id [] s h = ground (arith, h)
filter-append id (x ∷ seats) s h = ground (arith, filter-append id seats s h)

filter-seats_for :
    (seats : List PhaseGroupEntrant) (p : Placement)
    → filter (λ x. not (is_seat_of p.entrant.id x)) (seats_for seats p)
      ≡ filter (λ x. not (is_seat_of p.entrant.id x)) seats
filter-seats_for seats p = elim (Option-cases (find (is_seat_of p.entrant.id) seats)) [
  | inr (s, e) ↦ rw e refl
  | inl e ↦ rw e (filter-append p.entrant.id seats (new_seat p.entrant) (==_self p.entrant.id))
]

highest_slot-append :
    (seats : List PhaseGroupEntrant) (e : Entrant)
    → highest_slot (seats ++ new_seat e ∷ []) ≡ highest_slot seats
unfolding highest_slot
highest_slot-append [] e = omega arith
highest_slot-append (s ∷ seats) e = omega (arith, highest_slot-append seats e)

next_slot-seats_for :
    (seats : List PhaseGroupEntrant) (p : Placement)
    → next_slot (seats_for seats p) ≡ next_slot seats
unfolding next_slot
next_slot-seats_for seats p = elim (Option-cases (find (is_seat_of p.entrant.id) seats)) [
  | inr (s, e) ↦ rw e refl
  | inl e ↦ rw e (omega (arith, highest_slot-append seats p.entrant))
]

-- The seat that the entrant has, or the one that `place` makes.
abbrev pub own_seat : PhaseGroupAggregate → Entrant → PhaseGroupEntrant
own_seat a e = or_else (find (is_seat_of e.id) a.phase_group.entrants) (new_seat e)

abbrev pub others : ℕ → PhaseGroupAggregate → List PhaseGroupEntrant
others id a = filter (λ x. not (is_seat_of id x)) a.phase_group.entrants

-- After `place` the entrant has an active seat, the row that it had before, in the slot that is asked
-- for, else the one that it had, else the one after the highest; all other seats are as before.
place-own_seat :
    (a : PhaseGroupAggregate) (p : Placement)
    → (s : PhaseGroupEntrant) × (find (is_seat_of p.entrant.id) (place a p).phase_group.entrants
        ≡ some s)
      × (s.slot
          ≡ some (
              or_else p.slot
                (or_else (own_seat a p.entrant).slot (next_slot a.phase_group.entrants))))
      × (s.id ≡ (own_seat a p.entrant).id)
      × (s.status ≡ active_seat)
      × (others p.entrant.id (place a p) ≡ others p.entrant.id a)
unfolding place
place-own_seat a p =
    let seats = a.phase_group.entrants in
    let all_seats = seats_for seats p in
    let f = taken_slot p (next_slot all_seats) in
    (
      f (own_seat a p.entrant),
      find-write_seat p.entrant.id f all_seats (own_seat a p.entrant) (λ x. refl)
          (find-seats_for seats p),
      ap (λ n. some (or_else p.slot (or_else (own_seat a p.entrant).slot n)))
          (next_slot-seats_for seats p),
      refl,
      refl,
      filter-write_seat p.entrant.id f all_seats (λ x. refl) ∙ filter-seats_for seats p,
    )

without_seat-write_seat :
    (id : ℕ) (f : PhaseGroupEntrant → PhaseGroupEntrant) (seats : List PhaseGroupEntrant)
    (e : Entrant)
    → ((x : PhaseGroupEntrant) → (f x).entrant ≡ x.entrant)
    → find (is_seat_of id) seats ≡ none
    → e.id ≡ id
    → without_seat id (write_seat id f (seats ++ new_seat e ∷ [])) ≡ seats
unfolding without_seat write_seat
without_seat-write_seat id f [] e same h own =
    let kept : (f (new_seat e)).entrant.id ≡ e.id =
      ap (λ (x : Entrant). x.id) (same (new_seat e)) in
    ground (arith, own, kept, ==_self id)
without_seat-write_seat id f (x ∷ seats) e same h own =
    ground (arith, h, without_seat-write_seat id f seats e same (ground (arith, h)) own)

release-found :
    (a : PhaseGroupAggregate) (id : ℕ) (s : PhaseGroupEntrant)
    → find (is_seat_of id) a.phase_group.entrants ≡ some s
    → release a id ≡ record (with_seats a (without_seat id a.phase_group.entrants)) {
      removed_seat_ids = a.removed_seat_ids ++ dropped_id s;
    }
unfolding release
release-found a id s h = ground (arith, h)

-- To place an entrant who has no seat in the pool and to release the same one leaves the pool as it was.
pub place-release :
    (a : PhaseGroupAggregate) (p : Placement)
    → find (is_seat_of p.entrant.id) a.phase_group.entrants ≡ none
    → release (place a p) p.entrant.id ≡ a
unfolding place
place-release a p h =
    let seats = a.phase_group.entrants in
    let f = taken_slot p (next_slot (seats_for seats p)) in
    let found =
      find-write_seat p.entrant.id f (seats_for seats p) (own_seat a p.entrant) (λ x. refl)
        (find-seats_for seats p) in
    let own : (own_seat a p.entrant).id ≡ none = rw h refl in
    let made : seats_for seats p ≡ seats ++ new_seat p.entrant ∷ [] = rw h refl in
    let back : without_seat p.entrant.id (write_seat p.entrant.id f (seats_for seats p)) ≡ seats =
      ap (λ l. without_seat p.entrant.id (write_seat p.entrant.id f l)) made
      ∙ without_seat-write_seat p.entrant.id f seats p.entrant (λ x. refl) h refl in
    let no_row : a.removed_seat_ids ++ dropped_id (f (own_seat a p.entrant)) ≡ a.removed_seat_ids =
      ap (λ (o : Option ℕ). a.removed_seat_ids ++ elim o [ none ↦ [] | some i ↦ i ∷ [] ]) own
      ∙ append-nil a.removed_seat_ids in
    release-found (place a p) p.entrant.id (f (own_seat a p.entrant)) found
    ∙ ap
        (λ l. record (with_seats a l) {
          removed_seat_ids = a.removed_seat_ids ++ dropped_id (f (own_seat a p.entrant));
        })
        back
    ∙ ap (λ l. record (with_seats a seats) { removed_seat_ids = l }) no_row

advance_seat-restore :
    (ids : List ℕ) (s : PhaseGroupEntrant)
    → s.status ≡ active_seat
    → advance_seat [] (advance_seat ids s) ≡ s
advance_seat-restore ids s h = elim (Bool-cases (any (◌==◌ s.entrant.id) ids)) [
  | inl e ↦ rw (advance_seat, e) (ap (λ st. record s { status = st }) (sym h))
  | inr e ↦ ground (arith, e, h)
]

advance_seat-back :
    (ids : List ℕ) (seats : List PhaseGroupEntrant)
    → All (λ (s : PhaseGroupEntrant). s.status ≡ active_seat) seats
    → map (advance_seat []) (map (advance_seat ids) seats) ≡ seats
advance_seat-back ids [] h = refl
advance_seat-back ids (s ∷ seats) h =
    let rest = advance_seat-back ids seats h.1 in
    let first = advance_seat-restore ids s h.0 in cc (first, rest)

-- In a pool whose seats are all active, `markAdvanced([])` takes back what `markAdvanced` did.
pub mark_advanced-back :
    (a : PhaseGroupAggregate) (ids : List ℕ)
    → All (λ (s : PhaseGroupEntrant). s.status ≡ active_seat) a.phase_group.entrants
    → mark_advanced (mark_advanced a ids) [] ≡ a
unfolding mark_advanced
mark_advanced-back a ids h = ap (with_seats a) (advance_seat-back ids a.phase_group.entrants h)

-- ===== src/Pool/Seats.antt =====
-- The seats of a pool: how many each entrant has, after each operation.
use tournament_hub.Common.{
  ℕ, ◌+◌, ◌≤◌, ◌<◌, ◌≡◌, refl, ap, ◌∙◌, sym, inl, inr, not, ◌&&◌, List, [], ◌∷◌, map, arith, ◌==◌,
  ==_iff, if◌then◌else◌, Bool-cases, none, some, or_else, is_some, find, filter, count_if, All,
  All-map,
}
use tournament_hub.Match.Model.{Entrant}
use tournament_hub.Pool.{
  PhaseGroupEntrant, is_seat_of, highest_slot, next_slot, write_seat, without_seat, advance_seat,
}

abbrev pub seats_of : ℕ → List PhaseGroupEntrant → ℕ
seats_of id = count_if (is_seat_of id)

-- No entrant has two seats.
abbrev pub IsDistinct : List PhaseGroupEntrant → Type 0
IsDistinct seats = (id : ℕ) → seats_of id seats ≤ 1

pub seats_of-write_seat :
    (id i : ℕ) (f : PhaseGroupEntrant → PhaseGroupEntrant) (seats : List PhaseGroupEntrant)
    → ((s : PhaseGroupEntrant) → (f s).entrant ≡ s.entrant)
    → seats_of i (write_seat id f seats) ≡ seats_of i seats
unfolding write_seat
seats_of-write_seat id i f [] same = refl
seats_of-write_seat id i f (s ∷ seats) same =
    let kept : (f s).entrant.id ≡ s.entrant.id = ap (λ (e : Entrant). e.id) (same s) in
    ground (arith, seats_of-write_seat id i f seats same, kept)

pub seats_of-without_seat :
    (id i : ℕ) (seats : List PhaseGroupEntrant)
    → seats_of i seats
      ≡ seats_of i (without_seat id seats)
        + (if is_some (find (is_seat_of id) seats) && (id == i) then 1 else 0)
unfolding without_seat
seats_of-without_seat id i [] = refl
seats_of-without_seat id i (s ∷ seats) =
    ground (arith, seats_of-without_seat id i seats, ==_iff s.entrant.id id)

pub seats_of-find :
    (id : ℕ) (seats : List PhaseGroupEntrant)
    → find (is_seat_of id) seats ≡ none
    → seats_of id seats ≡ 0
seats_of-find id [] h = refl
seats_of-find id (s ∷ seats) h = ground (arith, h, seats_of-find id seats)

pub seats_of-advance_seat :
    (ids : List ℕ) (i : ℕ) (seats : List PhaseGroupEntrant)
    → seats_of i (map (advance_seat ids) seats) ≡ seats_of i seats
seats_of-advance_seat ids i [] = refl
seats_of-advance_seat ids i (s ∷ seats) = ground (arith, seats_of-advance_seat ids i seats)

pub find-is_seat_of :
    (id : ℕ) (seats : List PhaseGroupEntrant) (s : PhaseGroupEntrant)
    → find (is_seat_of id) seats ≡ some s
    → s.entrant.id ≡ id
find-is_seat_of id [] s h = cc
find-is_seat_of id (x ∷ seats) s h = elim (Bool-cases (is_seat_of id x)) [
  | inl e ↦
      let same : x ≡ s = ground (arith, h, e) in
      sym (ap (λ (y : PhaseGroupEntrant). y.entrant.id) same) ∙ (==_iff x.entrant.id id).0 e
  | inr e ↦ find-is_seat_of id seats s (ground (arith, h, e))
]

-- A write to a seat reaches the seat of the entrant, and no other.
pub find-write_seat :
    (id : ℕ) (f : PhaseGroupEntrant → PhaseGroupEntrant) (seats : List PhaseGroupEntrant)
    (s : PhaseGroupEntrant)
    → ((x : PhaseGroupEntrant) → (f x).entrant ≡ x.entrant)
    → find (is_seat_of id) seats ≡ some s
    → find (is_seat_of id) (write_seat id f seats) ≡ some (f s)
unfolding write_seat
find-write_seat id f [] s same h = cc
find-write_seat id f (x ∷ seats) s same h =
    let kept : (f x).entrant.id ≡ x.entrant.id = ap (λ (e : Entrant). e.id) (same x) in
    ground (arith, h, kept, find-write_seat id f seats s same)

pub filter-write_seat :
    (id : ℕ) (f : PhaseGroupEntrant → PhaseGroupEntrant) (seats : List PhaseGroupEntrant)
    → ((x : PhaseGroupEntrant) → (f x).entrant ≡ x.entrant)
    → filter (λ s. not (is_seat_of id s)) (write_seat id f seats)
      ≡ filter (λ s. not (is_seat_of id s)) seats
unfolding write_seat
filter-write_seat id f [] same = refl
filter-write_seat id f (x ∷ seats) same =
    let kept : (f x).entrant.id ≡ x.entrant.id = ap (λ (e : Entrant). e.id) (same x) in
    ground (arith, kept, filter-write_seat id f seats same)

-- The next slot is beyond every slot that is taken.
pub next_slot-above :
    (seats : List PhaseGroupEntrant)
    → All (λ (s : PhaseGroupEntrant). or_else s.slot 0 < next_slot seats) seats
unfolding next_slot highest_slot
next_slot-above [] = tt
next_slot-above (s ∷ seats) = (
  omega arith,
  All-map (λ (x : PhaseGroupEntrant). or_else x.slot 0 < next_slot seats) (λ x h. omega (arith, h))
      seats (next_slot-above seats),
)

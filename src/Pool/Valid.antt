-- ===== src/Pool/Valid.antt =====
-- The operations of a pool: what each does to the seats, and the invariant that they keep.
use tournament_hub.Common.{
  ℕ, refl, inl, inr, List, [], ◌∷◌, ◌++◌, arith, ==_iff, if◌then◌else◌, Option-cases, is_some, find,
  count_if-append,
}
use tournament_hub.Match.Model.{Entrant}
use tournament_hub.Pool.{
  PhaseGroupEntrant, PhaseGroupAggregate, PhaseGroupDetails, Placement, is_seat_of, new_seat,
  describe, seat, place, release, mark_advanced, complete, reopen, settle, next_slot, taken_slot,
}
use tournament_hub.Pool.Seats.{
  IsDistinct, seats_of-write_seat, seats_of-without_seat, seats_of-find, seats_of-advance_seat,
}
use tournament_hub.Pool.Reseat.{IsDistinctEntrants, seat-numbered_seats, seats_of-numbered_seats}

-- The seats among which `place` writes: the entrant's own is one of them.
abbrev pub seats_for : List PhaseGroupEntrant → Placement → List PhaseGroupEntrant
seats_for seats p =
    if is_some (find (is_seat_of p.entrant.id) seats)
    then seats
    else seats ++ new_seat p.entrant ∷ []

seats_for-IsDistinct :
    (seats : List PhaseGroupEntrant) (p : Placement)
    → IsDistinct seats
    → IsDistinct (seats_for seats p)
seats_for-IsDistinct seats p d = elim (Option-cases (find (is_seat_of p.entrant.id) seats)) [
  | inr (s, e) ↦ rw e d
  | inl e ↦
      let zero_seats = seats_of-find p.entrant.id seats e in
      rw e (λ id. ground (
        arith,
        d id,
        zero_seats,
        count_if-append (is_seat_of id) seats (new_seat p.entrant ∷ []),
        ==_iff p.entrant.id id,
      ))
]

-- A run of the operations, `seat` with a list in which nobody stands twice.
pub data PoolStep (a : PhaseGroupAggregate) : PhaseGroupAggregate → Type 0 where
  described : (d : PhaseGroupDetails) → PoolStep a (describe a d)
  seated : (es : List Entrant) → IsDistinctEntrants es → PoolStep a (seat a es)
  placed : (p : Placement) → PoolStep a (place a p)
  released : (id : ℕ) → PoolStep a (release a id)
  marked : (ids : List ℕ) → PoolStep a (mark_advanced a ids)
  completed_pool : PoolStep a (complete a)
  reopened : PoolStep a (reopen a)
  settled : PoolStep a (settle a)

place-IsDistinct :
    (a : PhaseGroupAggregate) (p : Placement)
    → IsDistinct a.phase_group.entrants
    → IsDistinct (place a p).phase_group.entrants
unfolding place
place-IsDistinct a p d id =
    let all_seats = seats_for a.phase_group.entrants p in
    omega (
      arith,
      seats_for-IsDistinct a.phase_group.entrants p d id,
      seats_of-write_seat p.entrant.id id (taken_slot p (next_slot all_seats)) all_seats
          (λ s. refl),
    )

release-IsDistinct :
    (a : PhaseGroupAggregate) (id : ℕ)
    → IsDistinct a.phase_group.entrants
    → IsDistinct (release a id).phase_group.entrants
unfolding release
release-IsDistinct a id d i = elim (Option-cases (find (is_seat_of id) a.phase_group.entrants)) [
  | inl e ↦ rw (release, e) (d i)
  | inr (s, e) ↦
      rw (release, e) (omega (arith, d i, seats_of-without_seat id i a.phase_group.entrants))
]

-- Every operation of a pool keeps the rule that no entrant has two seats, `seat` for a list in which
-- nobody stands twice.
pub PoolStep-IsDistinct :
    (a a' : PhaseGroupAggregate)
    → PoolStep a a'
    → IsDistinct a.phase_group.entrants
    → IsDistinct a'.phase_group.entrants
unfolding describe mark_advanced complete reopen settle
PoolStep-IsDistinct a a' (described x) d = d
PoolStep-IsDistinct a a' (seated es e) d =
    rw (seat-numbered_seats a es d e)
      (λ id. omega (arith, e id, seats_of-numbered_seats a.phase_group.entrants 1 es id))
PoolStep-IsDistinct a a' (placed p) d = place-IsDistinct a p d
PoolStep-IsDistinct a a' (released id) d = release-IsDistinct a id d
PoolStep-IsDistinct a a' (marked ids) d =
    λ id. omega (arith, d id, seats_of-advance_seat ids id a.phase_group.entrants)
PoolStep-IsDistinct a a' completed_pool d = d
PoolStep-IsDistinct a a' reopened d = d
PoolStep-IsDistinct a a' settled d = d

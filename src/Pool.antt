-- ===== src/Pool.antt =====
-- structure/phase-group/phase-group.aggregate.ts: a pool, its seats and its state. The entities are those of packages/persistence.
-- A name is a list of UTF-16 code units. The seats of a pool are different objects, so the removal of
-- one by identity takes the one that was found. Ids and slots of rows are numbers from 1; an absent one
-- is `none`.
pub mod Totals
pub mod Identifier
pub mod Decimal
pub mod Fresh
pub mod Sums
pub mod Placements
pub mod Seats
pub mod Reseat
pub mod Valid
pub mod Moves
use tournament_hub.Common.{
  ℕ, suc, ◌+◌, max, Bool, true, false, not, ◌&&◌, ◌||◌, List, [], ◌∷◌, ◌++◌, map, Option, none,
  some, ltb, ◌==◌, if◌then◌else◌, or_else, is_some, any, all, find, filter, length,
}
use tournament_hub.Match.Model.{Entrant, Match}

pub data PhaseGroupState : Type 0 where
  pending active completed : PhaseGroupState

pub data PhaseGroupEntrantStatus : Type 0 where
  pending_seat active_seat advanced eliminated withdrawn dq : PhaseGroupEntrantStatus

pub record PhaseGroupEntrant : Type 0 where
  pub id : Option ℕ
  pub entrant : Entrant
  pub seed_num : Option ℕ
  pub slot : Option ℕ
  pub status : PhaseGroupEntrantStatus
  pub source_advancement_rule : Option ℕ

pub record PhaseGroup : Type 0 where
  pub id : ℕ
  pub name : List ℕ
  pub display_identifier : Option (List ℕ)
  pub bracket_type : Option (List ℕ)
  pub state : PhaseGroupState
  pub entrants : List PhaseGroupEntrant
  pub matches : List Match

pub record PhaseGroupAggregate : Type 0 where
  pub phase_group : PhaseGroup
  pub removed_seat_ids : List ℕ

-- A field that the caller leaves out is `none`; a null one is `some none`. A state outside the three is
-- left out as well, since `STATES.includes` refuses it.
pub record PhaseGroupDetails : Type 0 where
  pub name : Option (List ℕ)
  pub display_identifier : Option (Option (List ℕ))
  pub bracket_type : Option (Option (List ℕ))
  pub state : Option PhaseGroupState

pub record Placement : Type 0 where
  pub entrant : Entrant
  pub slot : Option ℕ
  pub source_advancement_rule_id : Option ℕ

abbrev pub with_seats : PhaseGroupAggregate → List PhaseGroupEntrant → PhaseGroupAggregate
with_seats a seats = record a { phase_group = record (a.phase_group) { entrants = seats } }

abbrev pub with_state : PhaseGroupAggregate → PhaseGroupState → PhaseGroupAggregate
with_state a state = record a { phase_group = record (a.phase_group) { state = state } }

unfoldable pub describe : PhaseGroupAggregate → PhaseGroupDetails → PhaseGroupAggregate
describe a details = record a {
  phase_group = record (a.phase_group) {
    name = or_else details.name a.phase_group.name;
    display_identifier = or_else details.display_identifier a.phase_group.display_identifier;
    bracket_type = or_else details.bracket_type a.phase_group.bracket_type;
    state = or_else details.state a.phase_group.state;
  };
}

abbrev pub is_seat_of : ℕ → PhaseGroupEntrant → Bool
is_seat_of id seat = seat.entrant.id == id

abbrev pub new_seat : Entrant → PhaseGroupEntrant
new_seat e = record {
  id = none;
  entrant = e;
  seed_num = none;
  slot = none;
  status = active_seat;
  source_advancement_rule = none;
}

-- `drop`
abbrev pub dropped_id : PhaseGroupEntrant → List ℕ
dropped_id seat = elim seat.id [ none ↦ [] | some i ↦ i ∷ [] ]

unfoldable pub dropped_ids : List PhaseGroupEntrant → List ℕ
dropped_ids [] = []
dropped_ids (seat ∷ rest) = dropped_id seat ++ dropped_ids rest

-- `map.set(entrant.id, seat)`: the place of the first seat of the entrant, the value of the last.
unfoldable pub set_seat : List PhaseGroupEntrant → PhaseGroupEntrant → List PhaseGroupEntrant
set_seat [] seat = seat ∷ []
set_seat (s ∷ rest) seat =
    if is_seat_of seat.entrant.id s then seat ∷ rest else s ∷ set_seat rest seat

unfoldable pub seats_by_entrant_id :
    List PhaseGroupEntrant → List PhaseGroupEntrant → List PhaseGroupEntrant
unfolding set_seat
seats_by_entrant_id built [] = built
seats_by_entrant_id built (s ∷ rest) = seats_by_entrant_id (set_seat built s) rest

abbrev pub seat_at : PhaseGroupEntrant → ℕ → PhaseGroupEntrant
seat_at seat n = record seat { seed_num = some n; slot = some n; status = active_seat }

-- The loop of `seat`, from the given number: the seats, and the old ones that nobody took.
unfoldable pub seat_from :
    List PhaseGroupEntrant → ℕ → List Entrant → List PhaseGroupEntrant × List PhaseGroupEntrant
seat_from known n [] = ([], known)
seat_from known n (e ∷ rest) =
    let (seats, left) = seat_from (filter (λ s. not (is_seat_of e.id s)) known) (suc n) rest in
    (seat_at (or_else (find (is_seat_of e.id) known) (new_seat e)) n ∷ seats, left)

unfoldable pub seat : PhaseGroupAggregate → List Entrant → PhaseGroupAggregate
unfolding seats_by_entrant_id seat_from dropped_ids
seat a entrants =
    let (seats, left) = seat_from (seats_by_entrant_id [] a.phase_group.entrants) 1 entrants in
    record (with_seats a seats) { removed_seat_ids = a.removed_seat_ids ++ dropped_ids left }

unfoldable pub highest_slot : List PhaseGroupEntrant → ℕ
highest_slot [] = 0
highest_slot (seat ∷ rest) = max (or_else seat.slot 0) (highest_slot rest)

unfoldable pub next_slot : List PhaseGroupEntrant → ℕ
unfolding highest_slot
next_slot seats = highest_slot seats + 1

-- The first seat of the entrant is written in place.
unfoldable pub write_seat :
    ℕ → (PhaseGroupEntrant → PhaseGroupEntrant) → List PhaseGroupEntrant → List PhaseGroupEntrant
write_seat id f [] = []
write_seat id f (s ∷ rest) = if is_seat_of id s then f s ∷ rest else s ∷ write_seat id f rest

abbrev pub taken_slot : Placement → ℕ → PhaseGroupEntrant → PhaseGroupEntrant
taken_slot p next seat =
    let slot = or_else p.slot (or_else seat.slot next) in
    record seat {
      slot = some slot;
      seed_num = some slot;
      status = active_seat;
      source_advancement_rule = elim p.source_advancement_rule_id [
        | none ↦ seat.source_advancement_rule
        | some rule ↦ some rule
      ];
    }

unfoldable pub place : PhaseGroupAggregate → Placement → PhaseGroupAggregate
unfolding write_seat next_slot
place a p =
    let seats = a.phase_group.entrants in
    let all_seats =
      if is_some (find (is_seat_of p.entrant.id) seats)
      then seats
      else seats ++ new_seat p.entrant ∷ [] in
    with_seats a (write_seat p.entrant.id (taken_slot p (next_slot all_seats)) all_seats)

unfoldable pub without_seat : ℕ → List PhaseGroupEntrant → List PhaseGroupEntrant
without_seat id [] = []
without_seat id (s ∷ rest) = if is_seat_of id s then rest else s ∷ without_seat id rest

unfoldable pub release : PhaseGroupAggregate → ℕ → PhaseGroupAggregate
unfolding without_seat
release a id = elim (find (is_seat_of id) a.phase_group.entrants) [
  | none ↦ a
  | some seat ↦ record (with_seats a (without_seat id a.phase_group.entrants)) {
    removed_seat_ids = a.removed_seat_ids ++ dropped_id seat;
  }
]

abbrev pub is_advanced : PhaseGroupEntrantStatus → Bool
is_advanced advanced = true
is_advanced _ = false

abbrev pub advance_seat : List ℕ → PhaseGroupEntrant → PhaseGroupEntrant
advance_seat ids seat =
    if any (◌==◌ seat.entrant.id) ids
    then record seat { status = advanced }
    else if is_advanced seat.status
    then record seat { status = active_seat }
    else seat

unfoldable pub mark_advanced : PhaseGroupAggregate → List ℕ → PhaseGroupAggregate
mark_advanced a ids = with_seats a (map (advance_seat ids) a.phase_group.entrants)

unfoldable pub complete : PhaseGroupAggregate → PhaseGroupAggregate
complete a = with_state a completed

unfoldable pub reopen : PhaseGroupAggregate → PhaseGroupAggregate
reopen a = with_state a active

unfoldable pub settle : PhaseGroupAggregate → PhaseGroupAggregate
settle a = record a { removed_seat_ids = [] }

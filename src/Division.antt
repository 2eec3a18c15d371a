-- ===== src/Division.antt =====
-- structure/division/division.aggregate.ts: a division, its phases and its entrants.
-- A participant stands for its id and its player. The comparison of names, `localeCompare`, is a
-- parameter: the name on the left stands strictly before the one on the right. The phases of a division
-- are different objects, so that the removal of one by identity takes the one that was found.
pub mod Order
pub mod Seeding
use tournament_hub.Common.{
  ℕ, suc, Bool, true, false, ◌&&◌, ◌||◌, List, [], ◌∷◌, ◌++◌, Option, none, some, ltb, ◌==◌,
  if◌then◌else◌, or_else, is_some, any, find, filter, length, Result, err, ok,
}
use tournament_hub.Common.Text.{trim}
use tournament_hub.Common.Sort.{sort_by}
use tournament_hub.Match.Model.{has_id}

pub data EntrantStatus : Type 0 where
  active dropped withdrawn dq unknown : EntrantStatus

pub record EntrantParticipant : Type 0 where
  pub id : ℕ
  pub player : ℕ

pub record DivisionEntrant : Type 0 where
  pub id : Option ℕ
  pub name : List ℕ
  pub status : EntrantStatus
  pub seed_num : Option ℕ
  pub participants : List EntrantParticipant

pub record Phase : Type 0 where
  pub id : Option ℕ
  pub name : List ℕ

pub record Division : Type 0 where
  pub id : ℕ
  pub name : List ℕ
  pub tournament : ℕ
  pub phases : List Phase
  pub entrants : List DivisionEntrant

pub record DivisionAggregate : Type 0 where
  pub division : Division
  pub removed_phase_ids : List ℕ

pub data DivisionError : Type 0 where
  phase_not_found entrant_not_in_division : ℕ → DivisionError
  no_active_entrants : DivisionError

abbrev pub with_phases : DivisionAggregate → List Phase → DivisionAggregate
with_phases a phases = record a { division = record (a.division) { phases = phases } }

abbrev pub with_entrants : DivisionAggregate → List DivisionEntrant → DivisionAggregate
with_entrants a entrants = record a { division = record (a.division) { entrants = entrants } }

unfoldable pub next_phase_number : DivisionAggregate → ℕ
next_phase_number a = suc (length a.division.phases)

unfoldable pub add_phase : DivisionAggregate → List ℕ → DivisionAggregate
add_phase a name = with_phases a (a.division.phases ++ record { id = none; name = name } ∷ [])

abbrev pub is_phase : ℕ → Phase → Bool
is_phase id p = has_id p.id id

unfoldable pub phase : DivisionAggregate → ℕ → Result DivisionError Phase
phase a id = elim (find (is_phase id) a.division.phases) [
  | none ↦ err (phase_not_found id)
  | some p ↦ ok p
]

unfoldable pub rename_first : ℕ → List ℕ → List Phase → List Phase
rename_first id name [] = []
rename_first id name (p ∷ rest) =
    if is_phase id p then record p { name = name } ∷ rest else p ∷ rename_first id name rest

unfoldable pub rename_phase :
    DivisionAggregate → ℕ → List ℕ → Result DivisionError DivisionAggregate
unfolding phase rename_first
rename_phase a id name = elim (phase a id) [
  | err e ↦ err e
  | ok p ↦ elim (trim name) [
    | [] ↦ ok a
    | c ∷ rest ↦ ok (with_phases a (rename_first id (c ∷ rest) a.division.phases))
  ]
]

unfoldable pub without_phase : ℕ → List Phase → List Phase
without_phase id [] = []
without_phase id (p ∷ rest) = if is_phase id p then rest else p ∷ without_phase id rest

unfoldable pub remove_phase : DivisionAggregate → ℕ → Result DivisionError DivisionAggregate
unfolding phase without_phase
remove_phase a id = elim (phase a id) [
  | err e ↦ err e
  | ok p ↦ ok (record (with_phases a (without_phase id a.division.phases)) {
    removed_phase_ids = a.removed_phase_ids ++ id ∷ [];
  })
]

unfoldable pub settle : DivisionAggregate → DivisionAggregate
settle a = record a { removed_phase_ids = [] }

unfoldable pub describe : DivisionAggregate → Option (List ℕ) → DivisionAggregate
describe a name = record a {
  division = record (a.division) { name = or_else name a.division.name };
}

unfoldable pub move_to : DivisionAggregate → ℕ → DivisionAggregate
move_to a tournament = record a { division = record (a.division) { tournament = tournament } }

abbrev pub is_active : DivisionEntrant → Bool
is_active e = elim e.status [ active ↦ true | _ ↦ false ]

-- `Number.MAX_SAFE_INTEGER`
abbrev pub max_safe_integer : ℕ
max_safe_integer = 9007199254740991

abbrev pub seed_or_last : DivisionEntrant → ℕ
seed_or_last e = or_else e.seed_num max_safe_integer

abbrev pub row_id : DivisionEntrant → ℕ
row_id e = or_else e.id 0

module _ (name_before : List ℕ → List ℕ → Bool) where
  -- The comparator of `activeEntrants`: the seed, then the name, then the id of the row.
  abbrev pub stands_before : DivisionEntrant → DivisionEntrant → Bool
  stands_before left right =
      ltb (seed_or_last left) (seed_or_last right)
      || ((seed_or_last left == seed_or_last right)
          && (if name_before left.name right.name
              then true
              else if name_before right.name left.name
              then false
              else ltb (row_id left) (row_id right)))

  unfoldable pub active_entrants : DivisionAggregate → List DivisionEntrant
  active_entrants a = sort_by stands_before (filter is_active a.division.entrants)

  unfoldable pub assert_can_generate_bracket : DivisionAggregate → Result DivisionError (Unit {0})
  unfolding active_entrants
  assert_can_generate_bracket a =
      if length (active_entrants a) == 0 then err no_active_entrants else ok tt

abbrev pub is_entrant : ℕ → DivisionEntrant → Bool
is_entrant id e = has_id e.id id

-- The map of `seed` holds the last entrant of an id; rows have different ids.
unfoldable pub set_seed : ℕ → ℕ → List DivisionEntrant → List DivisionEntrant
set_seed id n [] = []
set_seed id n (e ∷ rest) =
    if is_entrant id e then record e { seed_num = some n } ∷ rest else e ∷ set_seed id n rest

unfoldable pub seed_from :
    ℕ → List ℕ → List DivisionEntrant → Result DivisionError (List DivisionEntrant)
unfolding set_seed
seed_from n [] entrants = ok entrants
seed_from n (id ∷ rest) entrants =
    if any (is_entrant id) entrants
    then seed_from (suc n) rest (set_seed id n entrants)
    else err (entrant_not_in_division id)

unfoldable pub seed : DivisionAggregate → List ℕ → Result DivisionError DivisionAggregate
unfolding seed_from
seed a ids = elim (seed_from 1 ids a.division.entrants) [
  | err e ↦ err e
  | ok entrants ↦ ok (with_entrants a entrants)
]

abbrev pub has_participant : ℕ → DivisionEntrant → Bool
has_participant id e = any (λ (p : EntrantParticipant). p.id == id) e.participants

abbrev pub has_player : ℕ → DivisionEntrant → Bool
has_player player e = any (λ (p : EntrantParticipant). p.player == player) e.participants

-- What `find` returns gets the status.
unfoldable pub set_status :
    (DivisionEntrant → Bool) → EntrantStatus → List DivisionEntrant → List DivisionEntrant
set_status test status [] = []
set_status test status (e ∷ rest) =
    if test e then record e { status = status } ∷ rest else e ∷ set_status test status rest

-- The participant comes with the name of its player.
unfoldable pub admit : DivisionAggregate → EntrantParticipant → List ℕ → DivisionAggregate
unfolding set_status
admit a participant player_name =
    let entrants = a.division.entrants in
    with_entrants a (
      if is_some (find (has_participant participant.id) entrants)
      then set_status (has_participant participant.id) active entrants
      else entrants
        ++ record {
          id = none;
          name = player_name;
          status = active;
          seed_num = none;
          participants = participant ∷ [];
        }
          ∷ [])

unfoldable pub withdraw_participant : DivisionAggregate → ℕ → DivisionAggregate
unfolding set_status
withdraw_participant a id =
    with_entrants a (set_status (has_participant id) withdrawn a.division.entrants)

unfoldable pub withdraw_player : DivisionAggregate → ℕ → DivisionAggregate
unfolding set_status
withdraw_player a player =
    with_entrants a (set_status (has_player player) withdrawn a.division.entrants)

-- ===== src/Tournament.antt =====
-- management/tournament.aggregate.ts: a tournament, its status and its participants.
-- A player and an account stand for their ids. The participant that a mutator returns is found by its
-- player or its id. The time of closing is given by the caller.
pub mod Roles
pub mod Valid
use tournament_hub.Common.{
  ℕ, suc, Bool, true, false, not, ◌&&◌, List, [], ◌∷◌, ◌++◌, map, Option, none, some, ltb, ◌==◌,
  if◌then◌else◌, or_else, is_some, any, find, filter, length, Result, err, ok,
}
use tournament_hub.Match.Model.{has_id}

pub data ParticipantRole : Type 0 where
  competitor spectator owner staff unknown : ParticipantRole

pub data ParticipantStatus : Type 0 where
  registered checked_in withdrawn unknown_status : ParticipantStatus

pub record Participant : Type 0 where
  pub id : Option ℕ
  pub player : ℕ
  pub account : Option ℕ
  pub roles : List ParticipantRole
  pub status : ParticipantStatus

pub data TournamentStatus : Type 0 where
  open_tournament closed_tournament : TournamentStatus

pub record Tournament : Type 0 where
  pub id : ℕ
  pub name : List ℕ
  pub status : TournamentStatus
  pub closed_at : Option ℕ
  pub startgg_api_key : Option (List ℕ)
  pub default_scoring_system : List ℕ
  pub participants : List Participant

pub record TournamentAggregate : Type 0 where
  pub tournament : Tournament
  pub removed_participant : Option Participant

pub record TournamentDetails : Type 0 where
  pub name : Option (List ℕ)
  pub startgg_api_key : Option (Option (List ℕ))
  pub default_scoring_system : Option (List ℕ)

pub data TournamentError : Type 0 where
  tournament_closed : ℕ → TournamentError
  participant_not_found : ℕ → TournamentError

abbrev pub role_code : ParticipantRole → ℕ
role_code competitor = 0
role_code spectator = 1
role_code owner = 2
role_code staff = 3
role_code unknown = 4

abbrev pub same_role : ParticipantRole → ParticipantRole → Bool
same_role a b = role_code a == role_code b

abbrev pub is_open_status : TournamentStatus → Bool
is_open_status open_tournament = true
is_open_status closed_tournament = false

abbrev pub is_open : TournamentAggregate → Bool
is_open a = is_open_status a.tournament.status

unfoldable pub assert_open : TournamentAggregate → Result TournamentError (Unit {0})
assert_open a = if is_open a then ok tt else err (tournament_closed a.tournament.id)

unfoldable pub describe : TournamentAggregate → TournamentDetails → TournamentAggregate
describe a details = record a {
  tournament = record (a.tournament) {
    name = or_else details.name a.tournament.name;
    startgg_api_key = or_else details.startgg_api_key a.tournament.startgg_api_key;
    default_scoring_system =
        or_else details.default_scoring_system a.tournament.default_scoring_system;
  };
}

unfoldable pub close : TournamentAggregate → ℕ → TournamentAggregate × Bool
close a now =
    if is_open a
    then (
      record a {
        tournament = record (a.tournament) { status = closed_tournament; closed_at = some now };
      },
      true,
    )
    else (a, false)

unfoldable pub reopen : TournamentAggregate → TournamentAggregate × Bool
reopen a = if is_open a then (a, false) else (
  record a { tournament = record (a.tournament) { status = open_tournament; closed_at = none } },
  true,
)

-- `roles.add(role)`
abbrev pub add_role : List ParticipantRole → ParticipantRole → List ParticipantRole
add_role roles role = if any (same_role role) roles then roles else roles ++ role ∷ []

unfoldable pub add_roles : List ParticipantRole → List ParticipantRole → List ParticipantRole
add_roles roles [] = roles
add_roles roles (role ∷ rest) = add_roles (add_role roles role) rest

abbrev pub or_unknown : List ParticipantRole → List ParticipantRole
or_unknown [] = unknown ∷ []
or_unknown (role ∷ rest) = role ∷ rest

-- `mergeRoles`
unfoldable pub merge_roles : List ParticipantRole → List ParticipantRole → List ParticipantRole
unfolding add_roles
merge_roles existing incoming =
    or_unknown
      (add_roles (add_roles [] (filter (λ r. not (same_role unknown r)) existing)) incoming)

abbrev pub with_participants : TournamentAggregate → List Participant → TournamentAggregate
with_participants a participants = record a {
  tournament = record (a.tournament) { participants = participants };
}

abbrev pub is_player : ℕ → Participant → Bool
is_player player p = p.player == player

abbrev pub is_participant : ℕ → Participant → Bool
is_participant id p = has_id p.id id

-- What `find` returns is changed in place.
unfoldable pub change_first :
    (Participant → Bool) → (Participant → Participant) → List Participant → List Participant
change_first test f [] = []
change_first test f (p ∷ rest) = if test p then f p ∷ rest else p ∷ change_first test f rest

abbrev pub with_roles : (List ParticipantRole → List ParticipantRole) → Participant → Participant
with_roles f p = record p { roles = f p.roles }

unfoldable pub register : TournamentAggregate → ℕ → List ParticipantRole → TournamentAggregate
unfolding merge_roles change_first
register a player roles =
    let participants = a.tournament.participants in
    with_participants a (
      if is_some (find (is_player player) participants)
      then change_first (is_player player) (with_roles (λ old. merge_roles old roles)) participants
      else participants
        ++ record {
          id = none;
          player = player;
          account = none;
          roles = merge_roles [] roles;
          status = registered;
        }
          ∷ [])

unfoldable pub has_participant : TournamentAggregate → ℕ → Bool
has_participant a id = any (is_participant id) a.tournament.participants

unfoldable pub participant : TournamentAggregate → ℕ → Result TournamentError Participant
participant a id = elim (find (is_participant id) a.tournament.participants) [
  | none ↦ err (participant_not_found id)
  | some p ↦ ok p
]

unfoldable pub without_first : (Participant → Bool) → List Participant → List Participant
without_first test [] = []
without_first test (p ∷ rest) = if test p then rest else p ∷ without_first test rest

unfoldable pub unregister : TournamentAggregate → ℕ → Result TournamentError TournamentAggregate
unfolding participant without_first
unregister a id = elim (participant a id) [
  | err e ↦ err e
  | ok p ↦
      ok
        (record (with_participants a
          (without_first (is_participant id) a.tournament.participants)) {
            removed_participant = some p;
          })
]

-- `if (!participant.account && account) participant.account = account`
abbrev pub granted : Option ℕ → Participant → Participant
granted account p = record p {
  account = elim p.account [ none ↦ account | some own ↦ some own ];
  roles = merge_roles p.roles (staff ∷ []);
}

unfoldable pub grant_staff :
    TournamentAggregate → ℕ → Option ℕ → Result TournamentError TournamentAggregate
unfolding participant change_first merge_roles
grant_staff a id account = elim (participant a id) [
  | err e ↦ err e
  | ok p ↦ ok (
      with_participants a
        (change_first (is_participant id) (granted account) a.tournament.participants))
]

abbrev pub revoked : List ParticipantRole → List ParticipantRole
revoked roles = or_unknown (filter (λ r. not (same_role staff r)) roles)

unfoldable pub revoke_staff : TournamentAggregate → ℕ → Result TournamentError TournamentAggregate
unfolding participant change_first
revoke_staff a id = elim (participant a id) [
  | err e ↦ err e
  | ok p ↦ ok (
      with_participants a
        (change_first (is_participant id) (with_roles revoked) a.tournament.participants))
]

unfoldable pub settle : TournamentAggregate → TournamentAggregate
settle a = record a { removed_participant = none }

-- ===== src/Bracket.antt =====
-- packages/brackets: the plans of brackets that the generators lay out.
-- The local id `m<n>` of a match stands as its number `n`; a label of a round as what it is made from;
-- and the name of a match is what the namer, an argument as in the source, gives its descriptor.
pub mod Elimination
pub mod DoubleElimination
pub mod Power
pub mod Seats
use Prim.Native.String.{String}
use Prim.Native.Nat.{◌%◌}
use tournament_hub.Common.{
  ℕ, zero, suc, ◌+◌, ◌-◌, ◌*◌, ◌/◌, Bool, true, false, not, List, [], ◌∷◌, ◌++◌, Option, none, some,
  ltb, leb, if◌then◌else◌, length, get_elem?, Result, ok, err, ◌>>=◌, ◌>>◌, throw_if,
}

pub data BracketType : Type 0 where
  single_elimination double_elimination manual : BracketType

pub data BracketRoundKind : Type 0 where
  single winners losers final : BracketRoundKind

pub record BracketMatchDescriptor : Type 0 where
  pub kind : BracketRoundKind
  pub round_index : ℕ
  pub round_count : ℕ
  pub match_index : ℕ
  pub match_count : ℕ

abbrev pub BracketMatchNamer : Type 0
BracketMatchNamer = BracketMatchDescriptor → String

pub data RoundLabel : Type 0 where
  round_label winners_label losers_drop_label losers_merge_label : (number : ℕ) → RoundLabel
  finals_label grand_final_label : RoundLabel

pub record BracketPlanMatch : Type 0 where
  pub local_id : ℕ
  pub name : String
  pub round : RoundLabel

pub record BracketPlanRoute : Type 0 where
  pub source_match_local_id : ℕ
  pub source_placement : ℕ
  pub target_match_local_id : ℕ
  pub target_slot : ℕ

pub record BracketPlanSeat : Type 0 where
  pub match_local_id : ℕ
  pub slot : ℕ
  pub seed_index : ℕ

pub record BracketPlan : Type 0 where
  pub bracket_type : BracketType
  pub player_per_match : ℕ
  pub entrant_count : ℕ
  pub byes : ℕ
  pub matches : List BracketPlanMatch
  pub routes : List BracketPlanRoute
  pub seats : List BracketPlanSeat

-- The errors: a generator's own, and the `TypeError` of a property read off an absent element.
pub data BracketError : Type 0 where
  too_few_per_match unsupported_per_match absent_element : BracketError

pub record BracketPlanBuilder : Type 0 where
  pub matches : List BracketPlanMatch
  pub routes : List BracketPlanRoute
  pub seats : List BracketPlanSeat

abbrev pub new_builder : BracketPlanBuilder
new_builder = record { matches = []; routes = []; seats = [] }

-- The `while` loop doubles `power`, so as many rounds as `value` are enough.
unfoldable pub next_pow2_from : ℕ → ℕ → ℕ → ℕ
next_pow2_from zero power value = power
next_pow2_from (suc fuel) power value =
    let doubled = next_pow2_from fuel (power * 2) value in
    if ltb power value then doubled else power

unfoldable pub next_pow2 : ℕ → ℕ
unfolding next_pow2_from
next_pow2 value = next_pow2_from value 1 value

-- `Math.ceil(n / d)`
abbrev pub ceil_div : ℕ → ℕ → ℕ
ceil_div n d = (n + (d - 1)) / d

module _ (name : BracketMatchNamer) where
  -- The loop of `addRound`, from `match_index` on, with `left` rounds to go.
  unfoldable pub add_matches :
      BracketRoundKind
      → ℕ
      → ℕ
      → ℕ
      → RoundLabel
      → ℕ
      → ℕ
      → BracketPlanBuilder
      → BracketPlanBuilder × List ℕ
  add_matches kind round_index round_count match_count round match_index zero b = (b, [])
  add_matches kind round_index round_count match_count round match_index (suc left) b =
      let local_id = length b.matches in
      let descriptor : BracketMatchDescriptor = record {
        kind = kind;
        round_index = round_index;
        round_count = round_count;
        match_index = match_index;
        match_count = match_count;
      } in
      let rest =
        add_matches kind round_index round_count match_count round (match_index + 1) left
          (record b {
            matches =
                b.matches
                ++ record { local_id = local_id; name = name descriptor; round = round } ∷ [];
          }) in
      (rest.0, local_id ∷ rest.1)

  unfoldable pub add_round :
      BracketPlanBuilder → BracketRoundKind → ℕ → ℕ → ℕ → RoundLabel → BracketPlanBuilder × List ℕ
  unfolding add_matches
  add_round b kind round_index round_count match_count round =
      add_matches kind round_index round_count match_count round 0 match_count b

unfoldable pub add_route : BracketPlanBuilder → ℕ → ℕ → ℕ → ℕ → BracketPlanBuilder
add_route b source placement_index target slot_index = record b {
  routes =
      b.routes
      ++ record {
        source_match_local_id = source;
        source_placement = placement_index + 1;
        target_match_local_id = target;
        target_slot = slot_index + 1;
      }
        ∷ [];
}

-- The body of the loop of `seatFirstWave`.
unfoldable pub seat_seed : List ℕ → ℕ → ℕ → List BracketPlanSeat
seat_seed first_round player_per_match seed_index =
    elim (get_elem? first_round (seed_index / player_per_match)) [
      | none ↦ []
      | some m ↦
          record {
            match_local_id = m;
            slot = seed_index % player_per_match + 1;
            seed_index = seed_index;
          }
          ∷ []
    ]

unfoldable pub seats_from : List ℕ → ℕ → ℕ → ℕ → List BracketPlanSeat
unfolding seat_seed
seats_from first_round player_per_match seed_index zero = []
seats_from first_round player_per_match seed_index (suc left) =
    seat_seed first_round player_per_match seed_index
    ++ seats_from first_round player_per_match (seed_index + 1) left

unfoldable pub seat_first_wave : BracketPlanBuilder → List ℕ → ℕ → ℕ → BracketPlanBuilder
unfolding seats_from
seat_first_wave b first_round entrant_count player_per_match = record b {
  seats = b.seats ++ seats_from first_round player_per_match 0 entrant_count;
}

abbrev pub build : BracketPlanBuilder → BracketType → ℕ → ℕ → ℕ → BracketPlan
build b bracket_type entrant_count player_per_match byes = record {
  bracket_type = bracket_type;
  player_per_match = player_per_match;
  entrant_count = entrant_count;
  byes = byes;
  matches = b.matches;
  routes = b.routes;
  seats = b.seats;
}

-- `Manual.generate`
unfoldable pub generate_manual : BracketMatchNamer → ℕ → ℕ → Result BracketError BracketPlan
unfolding add_round seat_first_wave
generate_manual name entrant_count player_per_match = do
  throw_if (ltb player_per_match 2) too_few_per_match
  let match_count = ceil_div entrant_count player_per_match
  let round = add_round name new_builder single 0 1 match_count (round_label 1)
  ok (
      build (seat_first_wave round.0 round.1 entrant_count player_per_match) manual entrant_count
        player_per_match (match_count * player_per_match - entrant_count))

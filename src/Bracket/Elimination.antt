-- ===== src/Bracket/Elimination.antt =====
-- packages/brackets/src/single-elimination.ts.
-- `playerPerMatch / 2` may have a half: the loop bound `j < playerPerMatch / 2` is read as
-- `2 * j < playerPerMatch`, and the counter that starts there is kept in halves. An index below zero
-- is `none`. Reading a property off an element that is not there is the error `absent_element`.
use tournament_hub.Common.{
  ℕ, zero, suc, ◌+◌, ◌-◌, ◌*◌, ◌/◌, Bool, true, false, List, [], ◌∷◌, ◌++◌, Option, none, some, ltb,
  leb, ◌==◌, if◌then◌else◌, get_elem?, or_else, Result, ok, err, ◌>>=◌, ◌>>◌, throw_if,
}
use Prim.Native.Nat.{◌%◌}
use tournament_hub.Bracket.{
  BracketMatchNamer, BracketPlanBuilder, BracketPlan, BracketError, single_elimination, single,
  final, too_few_per_match, absent_element, new_builder, round_label, finals_label, next_pow2,
  ceil_div, add_round, add_route, seat_first_wave, build,
}

pub record PlayerInfo : Type 0 where
  pub match : ℕ
  pub player_index_in_match : ℕ

-- `final[k].push(info)`
unfoldable pub push_at :
    ℕ → PlayerInfo → List (List PlayerInfo) → Result BracketError (List (List PlayerInfo))
push_at k info [] = err absent_element
push_at zero info (row ∷ rows) = ok ((row ++ info ∷ []) ∷ rows)
push_at (suc k) info (row ∷ rows) = do later ← push_at k info rows; ok (row ∷ later)

unfoldable pub push_into :
    Option ℕ → PlayerInfo → List (List PlayerInfo) → Result BracketError (List (List PlayerInfo))
unfolding push_at
push_into none info rows = err absent_element
push_into (some k) info rows = push_at k info rows

-- `k += increment`
abbrev pub move_by : Bool → Option ℕ → Option ℕ
move_by true none = some 0
move_by true (some k) = some (k + 1)
move_by false none = none
move_by false (some zero) = none
move_by false (some (suc k)) = some k

-- The loop over the matches `i`: the counter goes down by `unit` and starts again at `reset`.
unfoldable pub assign :
    (unit reset : ℕ) (rising : Bool) (place : ℕ)
    → (left i : ℕ) → Option ℕ
    → ℕ
    → List (List PlayerInfo)
    → Result BracketError (List (List PlayerInfo))
unfolding push_into
assign unit reset rising place zero i k counter rows = ok rows
assign unit reset rising place (suc left) i k counter rows = do
  pushed ← push_into k (record { match = i; player_index_in_match = place }) rows
  assign unit reset rising place left (i + 1) (if leb counter unit then move_by rising k else k)
      (if leb counter unit then reset else counter - unit) pushed

unfoldable pub empty_rows : ℕ → List (List PlayerInfo)
empty_rows zero = []
empty_rows (suc n) = [] ∷ empty_rows n

-- The loop over the places `j`.
unfoldable pub assign_places :
    (player_per_match match_count : ℕ)
    → (left j : ℕ) → List (List PlayerInfo)
    → Result BracketError (List (List PlayerInfo))
unfolding assign
assign_places player_per_match match_count zero j rows = ok rows
assign_places player_per_match match_count (suc left) j rows = do
  let rising = j % 2 == 0
  filled ←
      assign 2 player_per_match rising j match_count 0
        (if rising then some 0 else move_by false (some (match_count / 2))) player_per_match rows
  assign_places player_per_match match_count left (j + 1) filled

unfoldable pub least_rematch_indexes : ℕ → ℕ → Result BracketError (List (List PlayerInfo))
unfolding assign_places empty_rows
least_rematch_indexes player_count player_per_match =
    let match_count = player_count / player_per_match in
    assign_places player_per_match match_count (ceil_div player_per_match 2) 0
      (empty_rows (ceil_div match_count 2))

unfoldable pub direct_match_indexes : ℕ → ℕ → Result BracketError (List (List PlayerInfo))
unfolding assign empty_rows
direct_match_indexes player_count player_per_match =
    let match_count = player_count / player_per_match in
    assign 1 player_per_match true 0 match_count 0 (some 0) player_per_match
      (empty_rows (ceil_div match_count 2))

unfoldable pub get_indexes : ℕ → ℕ → Result BracketError (List (List PlayerInfo))
unfolding least_rematch_indexes direct_match_indexes
get_indexes player_count player_per_match =
    if ltb 2 player_per_match
    then least_rematch_indexes player_count player_per_match
    else direct_match_indexes player_count player_per_match

abbrev pub present {ℓ} : {A : Type ℓ} → Option A → Result BracketError A
present none = err absent_element
present (some a) = ok a

-- The loop over the slots `j` of one match of the next round.
unfoldable pub route_slots :
    List ℕ
    → List PlayerInfo
    → ℕ
    → (left j : ℕ) → BracketPlanBuilder
    → Result BracketError BracketPlanBuilder
unfolding add_route
route_slots current row target zero j b = ok b
route_slots current row target (suc left) j b = do
  info ← present (get_elem? row j)
  source ← present (get_elem? current info.match)
  route_slots current row target left (j + 1)
      (add_route b source info.player_index_in_match target j)

-- The loop over the matches `i` of the next round.
unfoldable pub route_matches :
    List ℕ
    → List (List PlayerInfo)
    → ℕ
    → ℕ
    → List ℕ
    → BracketPlanBuilder
    → Result BracketError BracketPlanBuilder
unfolding route_slots
route_matches current indexes player_per_match i [] b = ok b
route_matches current indexes player_per_match i (target ∷ rest) b = do
  row ← present (get_elem? indexes i)
  routed ← route_slots current row target player_per_match 0 b
  route_matches current indexes player_per_match (i + 1) rest routed

-- The variables of the loop over the rounds; `previous` is `currentMatches` with `indexes`, which are
-- null together.
pub record RoundState : Type 0 where
  pub builder : BracketPlanBuilder
  pub previous : Option (List ℕ × List (List PlayerInfo))
  pub current : List ℕ
  pub first_round : Option (List ℕ)
  pub round_index : ℕ

unfoldable pub route_round :
    Option (List ℕ × List (List PlayerInfo))
    → ℕ
    → List ℕ
    → BracketPlanBuilder
    → Result BracketError BracketPlanBuilder
unfolding route_matches
route_round none player_per_match next b = ok b
route_round (some (current, indexes)) player_per_match next b =
    route_matches current indexes player_per_match 0 next b

unfoldable pub indexes_of :
    ℕ → ℕ → ℕ → List ℕ → Result BracketError (Option (List ℕ × List (List PlayerInfo)))
unfolding get_indexes
indexes_of match_count count player_per_match next = elim (ltb 1 match_count) [
  | false ↦ ok none
  | true ↦ get_indexes count player_per_match >>= λ rows. ok (some (next, rows))
]

-- The `while` loop; `count` halves in each round, so the first number of matches is fuel enough.
unfoldable pub single_rounds :
    BracketMatchNamer → ℕ → ℕ → ℕ → ℕ → RoundState → Result BracketError RoundState
unfolding add_round route_round indexes_of
single_rounds name player_per_match round_count zero count s = ok s
single_rounds name player_per_match round_count (suc fuel) count s =
    let match_count = count / player_per_match in
    elim (leb 1 match_count) [
      | false ↦ ok s
      | true ↦
          let added =
            add_round name s.builder single s.round_index round_count match_count
              (round_label (s.round_index + 1)) in
          route_round s.previous player_per_match added.1 added.0 >>= λ routed.
          indexes_of match_count count player_per_match added.1 >>= λ previous.
          single_rounds name player_per_match round_count fuel (count / 2) (record {
            builder = routed;
            previous = previous;
            current = added.1;
            first_round = some (or_else s.first_round added.1);
            round_index = s.round_index + 1;
          })
    ]

-- `Math.log2` of a power of two.
unfoldable pub log2 : ℕ → ℕ → ℕ
log2 zero n = 0
log2 (suc fuel) n = let half = log2 fuel (n / 2) in if ltb n 2 then 0 else suc half

-- The routes of the places from `placement` on into one of the two finals.
unfoldable pub route_places :
    ℕ → ℕ → ℕ → (left placement : ℕ) → BracketPlanBuilder → BracketPlanBuilder
unfolding add_route
route_places source target base zero placement b = b
route_places source target base (suc left) placement b =
    route_places source target base left (placement + 1)
      (add_route b source placement target (placement - base))

unfoldable pub add_finals :
    BracketMatchNamer → ℕ → RoundState → Result BracketError BracketPlanBuilder
unfolding add_round route_places
add_finals name player_per_match s = elim (ltb 2 player_per_match) [
  | false ↦ ok s.builder
  | true ↦
      let added = add_round name s.builder final s.round_index (s.round_index + 1) 2 finals_label in
      let passing = player_per_match / 2 in
      present (get_elem? s.current 0) >>= λ source. present (get_elem? added.1 0) >>= λ upper.
      present (get_elem? added.1 1) >>= λ lower. ok (
        route_places source lower passing (player_per_match - passing) passing
          (route_places source upper 0 passing 0 added.0))
]

-- `SingleElimination.generate`
unfoldable pub generate_single : BracketMatchNamer → ℕ → ℕ → Result BracketError BracketPlan
unfolding single_rounds add_finals seat_first_wave log2
generate_single name entrant_count player_per_match = do
  throw_if (ltb player_per_match 2) too_few_per_match
  let first_count = next_pow2 (ceil_div entrant_count player_per_match)
  let effective_count = player_per_match * first_count
  s ←
      single_rounds name player_per_match (log2 first_count first_count + 1) (first_count + 1)
        effective_count
        (record {
          builder = new_builder;
          previous = none;
          current = [];
          first_round = none;
          round_index = 0;
        })
  b ← add_finals name player_per_match s
  ok (
      build (seat_first_wave b (or_else s.first_round []) entrant_count player_per_match)
        single_elimination entrant_count player_per_match (effective_count - entrant_count))

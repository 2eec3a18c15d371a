-- ===== src/Standings.antt =====
-- stats/division-placements.resolver.ts: where the entrants of a division end, and their order.
-- The graph of the competitions is given by its nodes and the depth of each; how it is built from the
-- advancement rules is not modelled. A row holds its entrant, where the code copies the entrant's
-- fields. The comparison of names, `localeCompare`, is a parameter: the name on the left stands strictly
-- before the one on the right.
pub mod Bands
pub mod Nearest
use tournament_hub.Common.{
  ℕ, zero, suc, ◌+◌, ◌^◌, Bool, true, false, ◌&&◌, ◌||◌, List, [], ◌∷◌, ◌++◌, map, Option, none,
  some, ltb, ◌==◌, if◌then◌else◌, or_else, all, filter, length, take, drop,
}
use tournament_hub.Common.Sort.{sort_by}
use tournament_hub.Division.{EntrantStatus}
use tournament_hub.Placement.{Average, CompetitionKind, match_kind, phase_group_kind}

pub record PlacementCompetition : Type 0 where
  pub kind : CompetitionKind
  pub id : ℕ
  pub name : List ℕ
  pub phase_group_id : Option ℕ
  pub decided : Bool
  pub entrant_ids : List ℕ
  pub placements : List (ℕ × ℕ)

pub record PlacementEntrant : Type 0 where
  pub entrant_id : ℕ
  pub entrant_name : List ℕ
  pub player_id : Option ℕ
  pub player_name : Option (List ℕ)
  pub status : EntrantStatus
  pub nationality : List ℕ
  pub seed_num : Option ℕ
  pub points : ℕ
  pub songs_played : ℕ
  pub average_percentage : Option Average

-- A node of the graph with its depth, as `graph.depths.get` gives it.
pub record GraphNode : Type 0 where
  pub node : PlacementCompetition
  pub depth : ℕ

pub record ExitNode : Type 0 where
  pub node : PlacementCompetition
  pub depth : ℕ
  pub placement : ℕ

pub data RoundLabel : Type 0 where
  final semi_final quarter_final : RoundLabel
  round_of : ℕ → RoundLabel

pub record PlacementRunStep : Type 0 where
  pub label : RoundLabel
  pub name : List ℕ
  pub won : Bool

pub record Exit : Type 0 where
  pub stop : ExitNode
  pub entrant : PlacementEntrant
  pub run : List PlacementRunStep

pub record DivisionPlacementRow : Type 0 where
  pub entrant : PlacementEntrant
  pub placement : ℕ
  pub shared_through : ℕ
  pub exit_kind : CompetitionKind
  pub exit_id : ℕ
  pub exit_name : List ℕ
  pub run : List PlacementRunStep

-- The map of the placements holds the last one of an entrant.
unfoldable pub last_placement : ℕ → List (ℕ × ℕ) → Option ℕ
last_placement id [] = none
last_placement id ((entrant, placement) ∷ rest) = elim (last_placement id rest) [
  | some later ↦ some later
  | none ↦ if entrant == id then some placement else none
]

abbrev pub stop_at : GraphNode → ℕ → ExitNode
stop_at g id = record {
  node = g.node;
  depth = g.depth;
  placement = or_else (last_placement id g.node.placements) (length g.node.entrant_ids + 1);
}

-- `byEntrant.get`
unfoldable pub stops_of : List GraphNode → ℕ → List ExitNode
unfolding last_placement
stops_of [] id = []
stops_of (g ∷ rest) id =
    map (stop_at g) (filter (λ entrant. entrant == id) g.node.entrant_ids) ++ stops_of rest id

unfoldable pub is_closer_to_the_end : ExitNode → ExitNode → Bool
is_closer_to_the_end candidate held =
    ltb candidate.depth held.depth
    || ((candidate.depth == held.depth) && ltb candidate.placement held.placement)
    || ((candidate.depth == held.depth)
        && (candidate.placement == held.placement)
        && ltb candidate.node.id held.node.id)

-- `stops.reduce`, from the first stop.
unfoldable pub closest_from : ExitNode → List ExitNode → ExitNode
unfolding is_closer_to_the_end
closest_from held [] = held
closest_from held (candidate ∷ rest) =
    closest_from (if is_closer_to_the_end candidate held then candidate else held) rest

unfoldable pub round_label : ℕ → RoundLabel
round_label zero = final
round_label (suc zero) = semi_final
round_label (suc (suc zero)) = quarter_final
round_label (suc (suc (suc n))) = round_of (2 ^ (n + 4))

abbrev pub runs_before : ExitNode → ExitNode → Bool
runs_before left right =
    ltb right.depth left.depth || ((right.depth == left.depth) && ltb left.node.id right.node.id)

unfoldable pub run_of : List ExitNode → List PlacementRunStep
unfolding round_label
run_of stops =
    map
      (λ (s : ExitNode). record {
        label = round_label s.depth;
        name = s.node.name;
        won = s.placement == 1;
      })
      (sort_by runs_before stops)

unfoldable pub exit_from : PlacementEntrant → List ExitNode → Option Exit
unfolding closest_from run_of
exit_from entrant [] = none
exit_from entrant (first ∷ rest) =
    some (record { stop = closest_from first rest; entrant = entrant; run = run_of (first ∷ rest) })

unfoldable pub exit_of : List GraphNode → PlacementEntrant → Option Exit
unfolding stops_of exit_from
exit_of nodes entrant = exit_from entrant (stops_of nodes entrant.entrant_id)

unfoldable pub collect_exits : List GraphNode → List PlacementEntrant → List Exit
unfolding exit_of
collect_exits nodes [] = []
collect_exits nodes (entrant ∷ rest) = elim (exit_of nodes entrant) [
  | none ↦ collect_exits nodes rest
  | some exit ↦ exit ∷ collect_exits nodes rest
]

abbrev pub same_band : Exit → Exit → Bool
same_band left right =
    (right.stop.depth == left.stop.depth) && (right.stop.placement == left.stop.placement)

-- The inner loop: how many of the following exits are in the band of the first.
unfoldable pub band_length : Exit → List Exit → ℕ
band_length first [] = 0
band_length first (exit ∷ rest) =
    let more = band_length first rest in if same_band first exit then suc more else 0

abbrev pub row_of : ℕ → ℕ → Exit → DivisionPlacementRow
row_of index end exit = record {
  entrant = exit.entrant;
  placement = index + 1;
  shared_through = end;
  exit_kind = exit.stop.node.kind;
  exit_id = exit.stop.node.id;
  exit_name = exit.stop.node.name;
  run = exit.run;
}

-- The outer loop, on fuel: every round takes an exit at least.
unfoldable pub rows_from : ℕ → ℕ → List Exit → List DivisionPlacementRow
unfolding band_length
rows_from zero index ordered = []
rows_from (suc fuel) index [] = []
rows_from (suc fuel) index (exit ∷ rest) =
    let end = index + suc (band_length exit rest) in
    map (row_of index end) (exit ∷ take (band_length exit rest) rest)
    ++ rows_from fuel end (drop (band_length exit rest) rest)

module _ (name_before : List ℕ → List ℕ → Bool) where
  abbrev pub exits_before : Exit → Exit → Bool
  exits_before left right =
      ltb left.stop.depth right.stop.depth
      || ((left.stop.depth == right.stop.depth)
          && (ltb left.stop.placement right.stop.placement
              || ((left.stop.placement == right.stop.placement)
                  && (if name_before left.entrant.entrant_name right.entrant.entrant_name
                      then true
                      else if name_before right.entrant.entrant_name left.entrant.entrant_name
                      then false
                      else ltb left.entrant.entrant_id right.entrant.entrant_id))))

  unfoldable pub band_rows : List Exit → List DivisionPlacementRow
  unfolding rows_from
  band_rows exits = rows_from (length exits) 0 (sort_by exits_before exits)

abbrev pub is_match_competition : PlacementCompetition → Bool
is_match_competition c = elim c.kind [ match_kind ↦ true | phase_group_kind ↦ false ]

unfoldable pub is_complete : List PlacementCompetition → Bool
is_complete competitions = elim (filter is_match_competition competitions) [
  | [] ↦ false
  | first ∷ rest ↦ all (λ (c : PlacementCompetition). c.decided) (first ∷ rest)
]

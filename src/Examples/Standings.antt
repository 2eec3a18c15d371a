-- ===== src/Examples/Standings.antt =====
-- A division of four entrants with two semi-finals and a final.
use tournament_hub.Common.{
  ℕ, ◌+◌, ◌≡◌, refl, Bool, true, false, ltb, List, [], ◌∷◌, some, none, map, length, get_elem?,
}
use tournament_hub.Common.Sort.{sort_by}
use tournament_hub.Placement.{match_kind}
use tournament_hub.Division.{active}
use tournament_hub.Standings.{
  PlacementCompetition, PlacementEntrant, GraphNode, Exit, DivisionPlacementRow, stops_of, exit_of,
  collect_exits, exits_before, band_rows, semi_final, final, round_label, round_of,
}
use tournament_hub.Standings.Nearest.{IsClosest, exit_of-IsClosest}
use tournament_hub.Standings.Bands.{ranked, band_rows-ranked}

abbrev played : ℕ → ℕ → ℕ → PlacementCompetition
played id winner loser = record {
  kind = match_kind;
  id = id;
  name = [];
  phase_group_id = some 1;
  decided = true;
  entrant_ids = winner ∷ loser ∷ [];
  placements = (winner, 1) ∷ (loser, 2) ∷ [];
}

abbrev knockout : List GraphNode
knockout =
    record { node = played 1 1 4; depth = 1 }
    ∷ record { node = played 2 2 3; depth = 1 }
    ∷ record { node = played 3 1 2; depth = 0 }
    ∷ []

abbrev named : ℕ → PlacementEntrant
named id = record {
  entrant_id = id;
  entrant_name = (64 + id) ∷ [];
  player_id = some id;
  player_name = some ((64 + id) ∷ []);
  status = active;
  nationality = [];
  seed_num = none;
  points = 0;
  songs_played = 0;
  average_percentage = none;
}

abbrev shorter : List ℕ → List ℕ → Bool
shorter a b = ltb (length a) (length b)

abbrev knockout_exits : List Exit
knockout_exits = collect_exits knockout (named 4 ∷ named 3 ∷ named 2 ∷ named 1 ∷ named 9 ∷ [])

abbrev places_of : DivisionPlacementRow → ℕ × ℕ × ℕ
places_of r = (r.entrant.entrant_id, r.placement, r.shared_through)

rows_test :
    map places_of (band_rows shorter knockout_exits)
    ≡ (1, 1, 1) ∷ (2, 2, 2) ∷ (3, 3, 4) ∷ (4, 3, 4) ∷ []
unfolding band_rows collect_exits sort_by
rows_test = refl

label_test : round_label 3 ≡ round_of 16
unfolding round_label
label_test = refl

abbrev runner_up : Exit
runner_up = record {
  stop = record { node = played 3 1 2; depth = 0; placement = 2 };
  entrant = named 2;
  run =
      record { label = semi_final; name = []; won = true }
      ∷ record { label = final; name = []; won = false }
      ∷ [];
}

runner_up_test : exit_of knockout (named 2) ≡ some runner_up
unfolding exit_of sort_by
runner_up_test = refl

exit_of-IsClosest_example :
    IsClosest runner_up.stop (stops_of knockout 2)
    × ((i : ℕ) × (get_elem? (stops_of knockout 2) i ≡ some runner_up.stop))
    × (length runner_up.run ≡ length (stops_of knockout 2))
exit_of-IsClosest_example = exit_of-IsClosest knockout (named 2) runner_up runner_up_test

band_rows-ranked_example :
    band_rows shorter knockout_exits
    ≡ map (ranked knockout_exits) (sort_by (exits_before shorter) knockout_exits)
band_rows-ranked_example = band_rows-ranked shorter knockout_exits

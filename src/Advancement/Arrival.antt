-- ===== src/Advancement/Arrival.antt =====
-- Where the entrants stand after `advanceFromMatch`.
use tournament_hub.Common.{
  ℕ, ◌≡◌, refl, ap, ◌∙◌, sym, subst, inl, inr, Bool, true, false, List, [], ◌∷◌, arith, ◌==◌,
  ==_iff, if◌then◌else◌, Bool-cases, is_some, any, Option, Option-cases, none, some, find, All,
  Result-cases, ok, ok_injective,
}
use tournament_hub.Placement.Materialize.{is_match}
use tournament_hub.Match.Model.{Entrant, Match, MatchAggregate}
use tournament_hub.Match.Scores.{is_entrant, place_entrant}
use tournament_hub.Advancement.{
  AdvancementRule, World, ActivityChange, is_match_row, load_match, save_match, recalculated,
  recalculate,
}
use tournament_hub.Advancement.Activity.{row_after, find-set_active}
use tournament_hub.Advancement.Runner.{
  place_direction, Moves, move, entrant_at, save_target, place_in, write_target_match, move_all,
}
use tournament_hub.Advancement.Targets.{
  place_entrant-match, load_match-row, find-write_match, find-written,
}
use tournament_hub.Advancement.Runs.{kind_cases}

abbrev pub row_of : World → ℕ → Option Match
row_of w id = find (is_match_row id) w.matches

-- The entrant is in the match, or there is no such match.
abbrev pub holds_entrant : Option Match → ℕ → Bool
holds_entrant none x = true
holds_entrant (some m) x = any (is_entrant x) m.entrants

-- No row comes or goes, and no entrant leaves a match.
pub record IsGrowing (w w' : World) : Type 0 where
  pub stands : (id : ℕ) → is_some (row_of w' id) ≡ is_some (row_of w id)
  pub kept :
      (id x : ℕ) → holds_entrant (row_of w id) x ≡ true → holds_entrant (row_of w' id) x ≡ true

pub IsGrowing-refl : (w : World) → IsGrowing w w
IsGrowing-refl w = record { stands = λ id. refl; kept = λ id x h. h }

pub IsGrowing-trans : (u v w : World) → IsGrowing u v → IsGrowing v w → IsGrowing u w
IsGrowing-trans u v w f g = record {
  stands = λ id. g.stands id ∙ f.stands id;
  kept = λ id x h. g.kept id x (f.kept id x h);
}

pub IsGrowing-matches : (w w' : World) → w'.matches ≡ w.matches → IsGrowing w w'
IsGrowing-matches w w' e = record {
  stands = λ id. ap (λ l. is_some (find (is_match_row id) l)) e;
  kept = λ id x h. ap (λ l. holds_entrant (find (is_match_row id) l) x) e ∙ h;
}

saved-row :
    (w : World) (a' : MatchAggregate) (m : Match) (id : ℕ)
    → a'.match.id ≡ id
    → row_of w id ≡ some m
    → row_of (save_match w a') id ≡ some a'.match
saved-row w a' m id at row =
    subst (λ i. find (is_match_row i) (save_match w a').matches ≡ some a'.match) at
      (find-written a'.match m w.matches
        (subst (λ i. find (is_match_row i) w.matches ≡ some m) (sym at) row))

other-row :
    (w : World) (a' : MatchAggregate) (id j : ℕ)
    → a'.match.id ≡ id
    → (id == j) ≡ false
    → row_of (save_match w a') j ≡ row_of w j
other-row w a' id j at f =
    find-write_match a'.match w.matches j (subst (λ n. (n == j) ≡ false) (sym at) f)

is_some-row_after :
    (changes : List ActivityChange) (o : Option Match) → is_some (row_after changes o) ≡ is_some o
is_some-row_after changes none = refl
is_some-row_after changes (some m) = refl

holds_entrant-row_after :
    (changes : List ActivityChange) (o : Option Match) (x : ℕ)
    → holds_entrant (row_after changes o) x ≡ holds_entrant o x
holds_entrant-row_after changes none x = refl
holds_entrant-row_after changes (some m) x = refl

recalculated-IsGrowing :
    (coming : List (List ActivityChange)) (w : World) → IsGrowing w (recalculated coming w)
recalculated-IsGrowing [] w = IsGrowing-refl w
recalculated-IsGrowing (changes ∷ rest) w = record {
  stands = λ id.
      ap is_some (find-set_active changes w.matches id) ∙ is_some-row_after changes (row_of w id);
  kept = λ id x h.
      ap (λ o. holds_entrant o x) (find-set_active changes w.matches id)
      ∙ holds_entrant-row_after changes (row_of w id) x
      ∙ h;
}

-- A recalculation takes nobody out, nor do the messages.
pub recalculate-IsGrowing : (ids : List ℕ) (w : World) → IsGrowing w (recalculate ids w)
recalculate-IsGrowing ids w =
    IsGrowing-trans w (recalculated w.coming w) (recalculate ids w)
      (recalculated-IsGrowing w.coming w)
      (IsGrowing-matches (recalculated w.coming w) (recalculate ids w) refl)

saved_target-IsGrowing :
    (w : World) (a : MatchAggregate) → IsGrowing (save_match w a) (save_target w a)
saved_target-IsGrowing w a =
    let ids = a.match.id ∷ [] in
    let again = recalculate ids (save_match w a) in
    IsGrowing-trans (save_match w a) again (save_target w a)
      (recalculate-IsGrowing ids (save_match w a)) (IsGrowing-matches again (save_target w a) refl)

save_match-IsGrowing :
    (w : World) (a' : MatchAggregate) (m : Match) (id : ℕ)
    → a'.match.id ≡ id
    → row_of w id ≡ some m
    → ((x : ℕ) → any (is_entrant x) m.entrants ≡ true → any (is_entrant x) a'.match.entrants ≡ true)
    → IsGrowing w (save_match w a')
save_match-IsGrowing w a' m id at row others = record {
  stands = λ j. elim (Bool-cases (id == j)) [
    | inl f ↦
        subst (λ i. is_some (row_of (save_match w a') i) ≡ is_some (row_of w i)) ((==_iff id j).0 f)
          (ap is_some (saved-row w a' m id at row) ∙ sym (ap is_some row))
    | inr f ↦ ap is_some (other-row w a' id j at f)
  ];
  kept = λ j x had. elim (Bool-cases (id == j)) [
    | inl f ↦
        let same = (==_iff id j).0 f in
        let old : any (is_entrant x) m.entrants ≡ true =
          sym (ap (λ o. holds_entrant o x) (subst (λ i. row_of w i ≡ some m) same row)) ∙ had in
        ap (λ o. holds_entrant o x)
          (subst (λ i. row_of (save_match w a') i ≡ some a'.match) same
            (saved-row w a' m id at row))
        ∙ others x old
    | inr f ↦ ap (λ o. holds_entrant o x) (other-row w a' id j at f) ∙ had
  ];
}

place_in-IsGrowing :
    (w w' : World) (a : MatchAggregate) (e : Entrant) (slot id : ℕ)
    → load_match w id ≡ some a
    → place_in w a e slot ≡ ok w'
    → IsGrowing w w' × (holds_entrant (row_of w' id) e.id ≡ true)
unfolding place_in
place_in-IsGrowing w w' a e slot id loaded h = elim (Result-cases (place_entrant a e slot)) [
  | inl (x, k) ↦ absurd (ground (arith, h, k))
  | inr (a', k) ↦
      let same : save_target w a' ≡ w' = ground (arith, h, k) in
      let (ids, there, others, _) = place_entrant-match a a' e slot k in
      let (own, row) = load_match-row w id a loaded in
      let grow = save_match-IsGrowing w a' a.match id (ids ∙ own) row others in
      let last = saved_target-IsGrowing w a' in
      let held : holds_entrant (row_of (save_match w a') id) e.id ≡ true =
        ap (λ o. holds_entrant o e.id) (saved-row w a' a.match id (ids ∙ own) row) ∙ there in
      subst (λ (v : World). IsGrowing w v × (holds_entrant (row_of v id) e.id ≡ true)) same
        (IsGrowing-trans w (save_match w a') (save_target w a') grow last, last.kept id e.id held)
]

unloaded-row : (w : World) (id : ℕ) → load_match w id ≡ none → row_of w id ≡ none
unfolding load_match
unloaded-row w id h = elim (Option-cases (row_of w id)) [
  | inl e ↦ e
  | inr (m, e) ↦ absurd (ground (arith, h, e))
]

-- The entrant of the rule's place is in the match that the rule targets.
abbrev pub has_arrived : World → List Entrant → AdvancementRule → Bool
has_arrived w placed r = elim (entrant_at placed r.source_placement) [
  | none ↦ true
  | some e ↦ if is_match r.target_kind then holds_entrant (row_of w r.target_id) e.id else true
]

pub has_arrived-kept :
    (w w' : World) (placed : List Entrant) (r : AdvancementRule)
    → IsGrowing w w'
    → has_arrived w placed r ≡ true
    → has_arrived w' placed r ≡ true
has_arrived-kept w w' placed r g h = elim (Option-cases (entrant_at placed r.source_placement)) [
  | inl e ↦ ground (arith, e)
  | inr (x, e) ↦ elim (Bool-cases (is_match r.target_kind)) [
    | inl k ↦ ground (arith, e, k, g.kept r.target_id x.id (ground (arith, h, e, k)))
    | inr k ↦ ground (arith, e, k)
  ]
]

write-IsGrowing :
    (w w' : World) (r : AdvancementRule) (e : Entrant)
    → write_target_match w r e place_direction ≡ ok w'
    → IsGrowing w w' × (holds_entrant (row_of w' r.target_id) e.id ≡ true)
unfolding write_target_match
write-IsGrowing w w' r e h = elim (Option-cases (load_match w r.target_id)) [
  | inr (a, k) ↦ place_in-IsGrowing w w' a e r.target_slot r.target_id k (ground (arith, h, k))
  | inl k ↦
      let same : w ≡ w' = ground (arith, h, k) in
      subst (λ (v : World). IsGrowing w v × (holds_entrant (row_of v r.target_id) e.id ≡ true)) same
        (IsGrowing-refl w, ap (λ o. holds_entrant o e.id) (unloaded-row w r.target_id k))
]

move-IsGrowing :
    (r : AdvancementRule) (e : Entrant) (m m' : Moves)
    → move place_direction r e m ≡ ok m'
    → IsGrowing m.world m'.world
      × ((if is_match r.target_kind then holds_entrant (row_of m'.world r.target_id) e.id else true)
          ≡ true)
move-IsGrowing r e m m' h = elim (kind_cases r.target_kind) [
  | inr k ↦
      let same : m.world ≡ m'.world = ground (arith, h, k) in
      (subst (IsGrowing m.world) same (IsGrowing-refl m.world), ground (arith, k))
  | inl k ↦ elim (Result-cases (write_target_match m.world r e place_direction)) [
    | inl (x, run) ↦ absurd (ground (arith, h, k, run))
    | inr (w, run) ↦
        let same : w ≡ m'.world = ground (arith, h, k, run) in
        let (grow, there) = write-IsGrowing m.world w r e run in
        (
          subst (IsGrowing m.world) same grow,
          ground (
            arith,
            k,
            subst (λ (v : World). holds_entrant (row_of v r.target_id) e.id ≡ true) same there,
          ),
        )
  ]
]

pub move_all-IsGrowing :
    (placed : List Entrant) (rules : List AdvancementRule) (m m' : Moves)
    → move_all place_direction placed rules m ≡ ok m'
    → IsGrowing m.world m'.world
      × All (λ (r : AdvancementRule). has_arrived m'.world placed r ≡ true) rules
unfolding move_all
move_all-IsGrowing placed [] m m' h =
    (subst (λ (x : Moves). IsGrowing m.world x.world) (ok_injective h) (IsGrowing-refl m.world), tt)
move_all-IsGrowing placed (r ∷ rest) m m' h =
    elim (Option-cases (entrant_at placed r.source_placement)) [
      | inl k ↦
          let (grow, all) = move_all-IsGrowing placed rest m m' (ground (arith, h, k)) in
          (grow, (ground (arith, k), all))
      | inr (e, k) ↦ elim (Result-cases (move place_direction r e m)) [
        | inl (x, run) ↦ absurd (ground (arith, h, k, run))
        | inr (n, run) ↦
            let (grow, all) = move_all-IsGrowing placed rest n m' (ground (arith, h, k, run)) in
            let (first, there) = move-IsGrowing r e m n run in
            (
              IsGrowing-trans m.world n.world m'.world first grow,
              (has_arrived-kept n.world m'.world placed r grow (ground (arith, k, there)), all),
            )
      ]
    ]

-- ===== src/Match/Shapes.antt =====
-- The standings of one round by their players and by whether they were played, and what the list
-- operations of the mutators do to these.
use tournament_hub.Common.{
  ℕ, ◌≡◌, ◌≢◌, refl, sym, ap, subst, inl, inr, Bool, false, List, [], ◌∷◌, ◌++◌, map, Option,
  Option-cases, arith, Bool-cases, is_some, All, any, filter, ok, >>=-eq-ok,
}
use mathlib.Core.Path.{subst₂}
use tournament_hub.Scoring.{ScoringStanding}
use tournament_hub.Scoring.Systems.{get_scoring_system, recalc}
use Prim.Native.String.{String}
use tournament_hub.Match.Model.{Score, Standing, Round}
use tournament_hub.Match.State.{is_of}
use tournament_hub.Match.Settle.{
  update_first, remove_first, zero_points, played, write_back, is_round_complete, rank_if_complete,
  keep_standings, stays, resettle_round, resettle_rounds,
}
use tournament_hub.Match.Scores.{write_standing}

abbrev pub shape : Standing → ℕ × Bool
shape s = (s.player, is_some s.score)

-- One standing for each player, and all of them played, or none.
abbrev pub OkShapes : Bool → List (ℕ × Bool) → Type 0
OkShapes b [] = Unit
OkShapes b ((p, f) ∷ rest) = (f ≡ b) × All (λ (q : ℕ × Bool). q.0 ≢ p) rest × OkShapes b rest

abbrev pub OkStandings : Bool → List Standing → Type 0
OkStandings b l = OkShapes b (map shape l)

-- Song rounds hold played standings, hand-scored rounds standings without a score.
abbrev pub OkRound : Round → Type 0
OkRound r = OkStandings (is_some r.song) r.standings

map-shape-write_back :
    (l : List Standing) (scored : List ScoringStanding)
    → map shape (write_back l scored) ≡ map shape l
unfolding write_back
map-shape-write_back [] scored = refl
map-shape-write_back (s ∷ rest) [] = refl
map-shape-write_back (s ∷ rest) (t ∷ scored) =
    ground (arith, map-shape-write_back rest scored, map-shape-write_back rest (t ∷ scored))

map-shape-zero : (l : List Standing) → map shape (map zero_points l) ≡ map shape l
map-shape-zero [] = refl
map-shape-zero (s ∷ l) = ap (◌∷◌ (shape s)) (map-shape-zero l)

module _ (P : ℕ × Bool → Type 0) where
  All-filter-shape :
      (f : Standing → Bool) (l : List Standing)
      → All P (map shape l)
      → All P (map shape (filter f l))
  All-filter-shape f [] h = tt
  All-filter-shape f (s ∷ l) h = elim (Bool-cases (f s)) [
    | inl e ↦ rw e (h.0, All-filter-shape f l h.1)
    | inr e ↦ rw e (All-filter-shape f l h.1)
  ]

  All-remove_first-shape :
      (f : Standing → Bool) (l : List Standing)
      → All P (map shape l)
      → All P (map shape (remove_first f l))
  unfolding remove_first
  All-remove_first-shape f [] h = tt
  All-remove_first-shape f (s ∷ l) h = elim (Bool-cases (f s)) [
    | inl e ↦ rw e h.1
    | inr e ↦ rw e (h.0, All-remove_first-shape f l h.1)
  ]

OkStandings-filter :
    (b : Bool) (f : Standing → Bool) (l : List Standing)
    → OkStandings b l
    → OkStandings b (filter f l)
OkStandings-filter b f [] h = tt
OkStandings-filter b f (s ∷ l) h = elim (Bool-cases (f s)) [
  | inl e ↦ rw e (
    h.0,
    All-filter-shape (λ (q : ℕ × Bool). q.0 ≢ s.player) f l h.1,
    OkStandings-filter b f l h.2,
  )
  | inr e ↦ rw e (OkStandings-filter b f l h.2)
]

pub OkStandings-remove_first :
    (b : Bool) (f : Standing → Bool) (l : List Standing)
    → OkStandings b l
    → OkStandings b (remove_first f l)
unfolding remove_first
OkStandings-remove_first b f [] h = tt
OkStandings-remove_first b f (s ∷ l) h = elim (Bool-cases (f s)) [
  | inl e ↦ rw e h.2
  | inr e ↦ rw e (
    h.0,
    All-remove_first-shape (λ (q : ℕ × Bool). q.0 ≢ s.player) f l h.1,
    OkStandings-remove_first b f l h.2,
  )
]

pub OkStandings-zero :
    (b : Bool) (l : List Standing) → OkStandings b l → OkStandings b (map zero_points l)
OkStandings-zero b l h = subst (OkShapes b) (sym (map-shape-zero l)) h

-- Writing the standing of a player keeps one standing for each player.
module _ (player : ℕ) (score : Option Score) (points : ℕ) where
  abbrev rewrite_standing : Standing → Standing
  rewrite_standing s = record s { player = player; score = score; points = points }

  map-shape-update :
      (l : List Standing)
      → OkStandings (is_some score) l
      → map shape (update_first (is_of player) rewrite_standing l) ≡ map shape l
  unfolding update_first
  map-shape-update [] h = refl
  map-shape-update (s ∷ l) h = elim (Bool-cases (is_of player s)) [
    | inl e ↦ rw e (ground (arith, e, h.0))
    | inr e ↦ rw e (ap (◌∷◌ (shape s)) (map-shape-update l h.2))
  ]

  All-absent :
      (l : List Standing)
      → any (is_of player) l ≡ false
      → All (λ (q : ℕ × Bool). player ≢ q.0) (map shape l)
  All-absent [] h = tt
  All-absent (s ∷ l) h = (ground arith, All-absent l (ground arith))

  OkStandings-append :
      (l : List Standing) (new : Standing)
      → new.player ≡ player
      → is_some new.score ≡ is_some score
      → OkStandings (is_some score) l
      → any (is_of player) l ≡ false
      → OkStandings (is_some score) (l ++ new ∷ [])
  OkStandings-append [] new p q h a = (q, tt, tt)
  OkStandings-append (s ∷ l) new p q h a =
      (h.0, differs l h.1, OkStandings-append l new p q h.2 (ground arith))
    where
      differs :
          (l : List Standing)
          → All (λ (r : ℕ × Bool). r.0 ≢ s.player) (map shape l)
          → All (λ (r : ℕ × Bool). r.0 ≢ s.player) (map shape (l ++ new ∷ []))
      differs [] k = (ground arith, tt)
      differs (t ∷ l) k = (k.0, differs l k.1)

  pub write_standing-OkRound :
      (round : Round)
      → is_some round.song ≡ is_some score
      → OkRound round
      → OkRound (write_standing round player score points)
  unfolding write_standing
  write_standing-OkRound round e h =
      let h' = rw e at h in
      elim (Bool-cases (any (is_of player) round.standings)) [
        | inl found ↦
            rw (found, e)
              (subst (OkShapes (is_some score)) (sym (map-shape-update round.standings h')) h')
        | inr absent ↦ rw (absent, e) (OkStandings-append round.standings _ refl refl h' absent)
      ]

-- Two rounds of one kind with standings of the same shapes.
abbrev pub Alike : Round → Round → Type 0
Alike r round =
    (is_some r.song ≡ is_some round.song) × (map shape r.standings ≡ map shape round.standings)

pub Alike-OkRound : (r round : Round) → Alike r round → OkRound round → OkRound r
Alike-OkRound r round (e, f) h = subst₂ OkShapes (sym e) (sym f) h

pub rank_if_complete-Alike :
    (system : String) (players : List ℕ) (round r : Round)
    → rank_if_complete system players round ≡ ok r
    → Alike r round
unfolding rank_if_complete
rank_if_complete-Alike system players round r e =
    elim (Bool-cases (is_round_complete players round)) [
      | inl complete ↦ elim (Option-cases (get_scoring_system system)) [
        | inl none_found ↦ absurd (cc (rw (complete, none_found) at e))
        | inr (t, found) ↦
            ground (arith, map-shape-write_back round.standings (recalc t (played round.standings)))
      ]
      | inr partial ↦ ground arith
    ]

keep_standings-OkRound :
    (players : List ℕ) (round : Round) → OkRound round → OkRound (keep_standings players round)
keep_standings-OkRound players round h =
    OkStandings-filter (is_some round.song) (stays players) round.standings h

resettle_round-Alike :
    (system : String) (players : List ℕ) (round r : Round)
    → resettle_round system players round ≡ ok r
    → Alike r (keep_standings players round)
unfolding resettle_round
resettle_round-Alike system players round r e = ground (
  arith,
  rank_if_complete-Alike system players (keep_standings players round) r,
  map-shape-zero (keep_standings players round).standings,
)

-- A successful run over the rounds is a successful run on each.
pub resettle_rounds-cons :
    (system : String) (players : List ℕ) (round : Round) (rest rs : List Round)
    → resettle_rounds system players (round ∷ rest) ≡ ok rs
    → (r : Round) × (others : List Round) × (resettle_round system players round ≡ ok r)
      × (resettle_rounds system players rest ≡ ok others)
      × (rs ≡ r ∷ others)
unfolding resettle_rounds
resettle_rounds-cons system players round rest rs e =
    let (r, first, e') = >>=-eq-ok (resettle_round system players round) _ e in
    let (others, later, e'') = >>=-eq-ok (resettle_rounds system players rest) _ e' in
    (r, others, first, later, cc)

pub resettle_rounds-OkRound :
    (system : String) (players : List ℕ) (rounds rs : List Round)
    → resettle_rounds system players rounds ≡ ok rs
    → All OkRound rounds
    → All OkRound rs
resettle_rounds-OkRound system players [] rs e h =
    let none_left : rs ≡ [] = unfold resettle_rounds in cc in rw none_left tt
resettle_rounds-OkRound system players (round ∷ rest) rs e h =
    let (r, others, first, later, split) = resettle_rounds-cons system players round rest rs e in
    let kept = keep_standings players round in
    rw split (
      Alike-OkRound r kept (resettle_round-Alike system players round r first)
          (keep_standings-OkRound players round h.0),
      resettle_rounds-OkRound system players rest others later h.1,
    )

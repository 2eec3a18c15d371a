-- ===== src/Division/Seeding.antt =====
-- Seeding, admission and withdrawal.
use tournament_hub.Common.{
  ℕ, suc, ◌≡◌, refl, ap, ◌∙◌, sym, inl, inr, true, false, List, [], ◌∷◌, ◌++◌, arith, ◌==◌, ==_iff,
  ==_self, if◌then◌else◌, Bool-cases, Option, Option-cases, none, some, is_some, any, find,
  Result-cases, ok, ok_injective,
}
use tournament_hub.Match.Model.{has_id}
use tournament_hub.Division.{
  EntrantStatus, active, EntrantParticipant, DivisionEntrant, DivisionAggregate, is_entrant,
  set_seed, seed_from, seed, has_participant, set_status, admit, with_entrants,
}

abbrev pub seed_of : ℕ → List DivisionEntrant → Option ℕ
seed_of id entrants = elim (find (is_entrant id) entrants) [ none ↦ none | some e ↦ e.seed_num ]

has_id_once : (o : Option ℕ) (i j : ℕ) → has_id o i ≡ true → has_id o j ≡ (i == j)
has_id_once none i j h = cc
has_id_once (some k) i j h = ground (arith, h)

seed_of-set_seed :
    (id j n : ℕ) (entrants : List DivisionEntrant)
    → any (is_entrant id) entrants ≡ true
    → seed_of j (set_seed id n entrants) ≡ (if id == j then some n else seed_of j entrants)
unfolding set_seed
seed_of-set_seed id j n [] h = cc
seed_of-set_seed id j n (e ∷ entrants) h = elim (Bool-cases (is_entrant id e)) [
  | inl k ↦ ground (arith, k, has_id_once e.id id j k)
  | inr k ↦ elim (Bool-cases (is_entrant j e)) [
    | inl f ↦ ground (arith, k, f, has_id_once e.id j id f, ==_iff j id, ==_iff id j)
    | inr f ↦ ground (arith, k, f, seed_of-set_seed id j n entrants (ground (arith, h, k)))
  ]
]

-- The place of an id in the list, from the given number: the last one.
abbrev pub last_place : ℕ → ℕ → List ℕ → Option ℕ
last_place n id [] = none
last_place n id (i ∷ rest) = elim (last_place (suc n) id rest) [
  | some m ↦ some m
  | none ↦ if i == id then some n else none
]

seed_from-last_place :
    (n : ℕ) (ids : List ℕ) (entrants after : List DivisionEntrant) (id : ℕ)
    → seed_from n ids entrants ≡ ok after
    → seed_of id after ≡ elim (last_place n id ids) [ none ↦ seed_of id entrants | some m ↦ some m ]
unfolding seed_from
seed_from-last_place n [] entrants after id h = ap (seed_of id) (sym (ok_injective h))
seed_from-last_place n (i ∷ ids) entrants after id h =
    elim (Bool-cases (any (is_entrant i) entrants)) [
      | inr k ↦ absurd (ground (arith, h, k))
      | inl k ↦
          let rest =
            seed_from-last_place (suc n) ids (set_seed i n entrants) after id
              (ground (arith, h, k)) in
          elim (Option-cases (last_place (suc n) id ids)) [
            | inr (m, e) ↦ ground (arith, rest, e)
            | inl e ↦ ground (arith, rest, e, seed_of-set_seed i id n entrants k)
          ]
    ]

-- After a successful `seed` an entrant of the list has its place in it as its seed, counted from 1, and
-- every other entrant keeps its seed.
pub seed-last_place :
    (a a' : DivisionAggregate) (ids : List ℕ) (id : ℕ)
    → seed a ids ≡ ok a'
    → seed_of id a'.division.entrants
      ≡ elim (last_place 1 id ids) [ none ↦ seed_of id a.division.entrants | some m ↦ some m ]
unfolding seed
seed-last_place a a' ids id h = elim (Result-cases (seed_from 1 ids a.division.entrants)) [
  | inl (x, k) ↦ absurd (ground (arith, h, k))
  | inr (after, k) ↦
      let same : after ≡ a'.division.entrants = ground (arith, h, k) in
      ap (seed_of id) (sym same) ∙ seed_from-last_place 1 ids a.division.entrants after id k
]

set_status-again :
    (id : ℕ) (s : EntrantStatus) (l : List DivisionEntrant)
    → set_status (has_participant id) s (set_status (has_participant id) s l)
      ≡ set_status (has_participant id) s l
unfolding set_status
set_status-again id s [] = refl
set_status-again id s (e ∷ l) = ground (arith, set_status-again id s l)

find-set_status :
    (id : ℕ) (s : EntrantStatus) (l : List DivisionEntrant)
    → is_some (find (has_participant id) (set_status (has_participant id) s l))
      ≡ is_some (find (has_participant id) l)
unfolding set_status
find-set_status id s [] = refl
find-set_status id s (e ∷ l) = ground (arith, find-set_status id s l)

set_status-new :
    (e : DivisionEntrant) (id : ℕ) (l : List DivisionEntrant)
    → find (has_participant id) l ≡ none
    → has_participant id e ≡ true
    → set_status (has_participant id) active (l ++ record e { status = active } ∷ [])
      ≡ l ++ record e { status = active } ∷ []
unfolding set_status
set_status-new e id [] h k = rw (set_status, k) refl
set_status-new e id (x ∷ l) h k = ground (arith, h, set_status-new e id l (ground (arith, h)) k)

find-new :
    (e : DivisionEntrant) (id : ℕ) (l : List DivisionEntrant)
    → has_participant id e ≡ true
    → is_some (find (has_participant id) (l ++ e ∷ [])) ≡ true
find-new e id [] k = ground (arith, k)
find-new e id (x ∷ l) k = ground (arith, find-new e id l k)

admit-known :
    (a : DivisionAggregate) (p : EntrantParticipant) (name : List ℕ)
    → is_some (find (has_participant p.id) a.division.entrants) ≡ true
    → admit a p name
      ≡ with_entrants a (set_status (has_participant p.id) active a.division.entrants)
unfolding admit
admit-known a p name h = rw (admit, h) refl

-- The entrant that `admit` makes.
abbrev new_entrant : EntrantParticipant → List ℕ → DivisionEntrant
new_entrant p name = record {
  id = none;
  name = name;
  status = active;
  seed_num = none;
  participants = p ∷ [];
}

admit-new :
    (a : DivisionAggregate) (p : EntrantParticipant) (name : List ℕ)
    → is_some (find (has_participant p.id) a.division.entrants) ≡ false
    → admit a p name ≡ with_entrants a (a.division.entrants ++ new_entrant p name ∷ [])
unfolding admit
admit-new a p name h = rw (admit, h) refl

-- To admit a participant a second time changes nothing: the division has the same entrants, with the
-- same status.
pub admit-admit :
    (a : DivisionAggregate) (p : EntrantParticipant) (name other : List ℕ)
    → admit (admit a p name) p other ≡ admit a p name
admit-admit a p name other =
    let l = a.division.entrants in
    let marked = set_status (has_participant p.id) active l in
    let longer = l ++ new_entrant p name ∷ [] in
    let own : has_participant p.id (new_entrant p name) ≡ true = ground (arith, ==_self p.id) in
    elim (Bool-cases (is_some (find (has_participant p.id) l))) [
      | inl k ↦
          let first = admit-known a p name k in
          ap (λ b. admit b p other) first
          ∙ admit-known (with_entrants a marked) p other (find-set_status p.id active l ∙ k)
          ∙ ap (with_entrants a) (set_status-again p.id active l)
          ∙ sym first
      | inr k ↦
          let first = admit-new a p name k in
          ap (λ b. admit b p other) first
          ∙ admit-known (with_entrants a longer) p other (find-new (new_entrant p name) p.id l own)
          ∙ ap (with_entrants a)
              (set_status-new (new_entrant p name) p.id l (ground (arith, k)) own)
          ∙ sym first
    ]

-- ===== src/Pool/Reseat.antt =====
-- `PhaseGroupAggregate.seat` on a pool in which no entrant has two seats.
use mathlib.Core.List.{append-nil, append_assoc}
use tournament_hub.Common.{
  ℕ, suc, ◌≤◌, ◌≡◌, refl, ap, ◌∙◌, sym, subst, inl, inr, false, not, List, [], ◌∷◌, ◌++◌, arith,
  ◌==◌, ==_iff, ==_self, Option-cases, or_else, Option, none, some, any, find, filter, count_if,
  count_if-append,
}
use tournament_hub.Match.Model.{Entrant}
use tournament_hub.Match.Scores.{is_entrant}
use tournament_hub.Pool.{
  active_seat, PhaseGroupEntrant, PhaseGroupAggregate, is_seat_of, new_seat, seat_at, seat_from,
  set_seat, seats_by_entrant_id, seat, with_seats, dropped_ids,
}
use tournament_hub.Pool.Seats.{seats_of, IsDistinct, find-is_seat_of}

-- Each entrant's old seat, or a new one, with the entrant's number.
abbrev seats_in_order : List PhaseGroupEntrant → ℕ → List Entrant → List PhaseGroupEntrant
seats_in_order known n [] = []
seats_in_order known n (e ∷ rest) =
    seat_at (or_else (find (is_seat_of e.id) known) (new_seat e)) n
    ∷ seats_in_order known (suc n) rest

-- The seats of those who are not among the entrants.
abbrev pub left_out : List Entrant → List PhaseGroupEntrant → List PhaseGroupEntrant
left_out es = filter (λ s. not (any (is_entrant s.entrant.id) es))

abbrev pub IsDistinctEntrants : List Entrant → Type 0
IsDistinctEntrants es = (id : ℕ) → count_if (is_entrant id) es ≤ 1

left_out-nil : (known : List PhaseGroupEntrant) → left_out [] known ≡ known
left_out-nil [] = refl
left_out-nil (s ∷ known) = ap (◌∷◌ s) (left_out-nil known)

left_out-filter :
    (e : Entrant) (es : List Entrant) (known : List PhaseGroupEntrant)
    → left_out es (filter (λ s. not (is_seat_of e.id s)) known) ≡ left_out (e ∷ es) known
left_out-filter e es [] = refl
left_out-filter e es (s ∷ known) =
    ground (arith, left_out-filter e es known, ==_iff s.entrant.id e.id, ==_iff e.id s.entrant.id)

find-filter :
    (e : Entrant) (id : ℕ) (known : List PhaseGroupEntrant)
    → (e.id == id) ≡ false
    → find (is_seat_of id) (filter (λ s. not (is_seat_of e.id s)) known)
      ≡ find (is_seat_of id) known
find-filter e id [] h = refl
find-filter e id (s ∷ known) h = ground (
  arith,
  h,
  find-filter e id known h,
  ==_iff s.entrant.id e.id,
  ==_iff s.entrant.id id,
  ==_iff e.id id,
)

seats_in_order-filter :
    (e : Entrant) (known : List PhaseGroupEntrant) (n : ℕ) (es : List Entrant)
    → count_if (is_entrant e.id) es ≡ 0
    → seats_in_order (filter (λ s. not (is_seat_of e.id s)) known) n es ≡ seats_in_order known n es
seats_in_order-filter e known n [] h = refl
seats_in_order-filter e known n (x ∷ es) h =
    let other : (e.id == x.id) ≡ false = ground (arith, h, ==_iff e.id x.id, ==_iff x.id e.id) in
    let rest = seats_in_order-filter e known (suc n) es (ground (arith, h)) in
    rw (find-filter e x.id known other) (cc rest)

seat_from-seats_in_order :
    (known : List PhaseGroupEntrant) (n : ℕ) (es : List Entrant)
    → IsDistinctEntrants es
    → seat_from known n es ≡ (seats_in_order known n es, left_out es known)
unfolding seat_from
seat_from-seats_in_order known n [] d = rw (left_out-nil known) refl
seat_from-seats_in_order known n (e ∷ es) d =
    let rest =
      seat_from-seats_in_order (filter (λ s. not (is_seat_of e.id s)) known) (suc n) es
        (λ id. ground (arith, d id)) in
    let alone : count_if (is_entrant e.id) es ≡ 0 = ground (arith, d e.id, ==_self e.id) in
    rw (rest, seats_in_order-filter e known (suc n) es alone, left_out-filter e es known) refl

set_seat-append :
    (built : List PhaseGroupEntrant) (s : PhaseGroupEntrant)
    → seats_of s.entrant.id built ≡ 0
    → set_seat built s ≡ built ++ s ∷ []
unfolding set_seat
set_seat-append [] s h = refl
set_seat-append (b ∷ built) s h = ground (arith, h, set_seat-append built s (ground (arith, h)))

seats_by_entrant_id-append :
    (built seats : List PhaseGroupEntrant)
    → IsDistinct (built ++ seats)
    → seats_by_entrant_id built seats ≡ built ++ seats
unfolding seats_by_entrant_id
seats_by_entrant_id-append built [] d = sym (append-nil built)
seats_by_entrant_id-append built (s ∷ seats) d =
    let counts = count_if-append (is_seat_of s.entrant.id) built (s ∷ seats) in
    let absent : seats_of s.entrant.id built ≡ 0 =
      ground (arith, counts, d s.entrant.id, ==_self s.entrant.id) in
    ap (λ b. seats_by_entrant_id b seats) (set_seat-append built s absent)
    ∙ seats_by_entrant_id-append (built ++ s ∷ []) seats
        (subst IsDistinct (sym (append_assoc built (s ∷ []) seats)) d)
    ∙ append_assoc built (s ∷ []) seats

seat_at-entrant :
    (known : List PhaseGroupEntrant) (e : Entrant)
    → (or_else (find (is_seat_of e.id) known) (new_seat e)).entrant.id ≡ e.id
seat_at-entrant known e = elim (Option-cases (find (is_seat_of e.id) known)) [
  | inl k ↦ rw k refl
  | inr (s, k) ↦ rw k (find-is_seat_of e.id known s k)
]

seats_of-seats_in_order :
    (known : List PhaseGroupEntrant) (n : ℕ) (es : List Entrant) (id : ℕ)
    → seats_of id (seats_in_order known n es) ≡ count_if (is_entrant id) es
seats_of-seats_in_order known n [] id = refl
seats_of-seats_in_order known n (e ∷ es) id =
    ground (arith, seat_at-entrant known e, seats_of-seats_in_order known (suc n) es id)

seat-eq :
    (a : PhaseGroupAggregate) (es : List Entrant)
    → IsDistinct a.phase_group.entrants
    → IsDistinctEntrants es
    → seat a es ≡ record (with_seats a (seats_in_order a.phase_group.entrants 1 es)) {
      removed_seat_ids = a.removed_seat_ids ++ dropped_ids (left_out es a.phase_group.entrants);
    }
unfolding seat
seat-eq a es d e =
    let known = seats_by_entrant_id-append [] a.phase_group.entrants d in
    let run = seat_from-seats_in_order a.phase_group.entrants 1 es e in rw (known, run) refl

-- A seat of the entrant, active, with the number as its seed and its slot: the row and the rule are those
-- of the old seat, if there is one.
abbrev pub numbered_seat : Option PhaseGroupEntrant → Entrant → ℕ → PhaseGroupEntrant
numbered_seat old e n = elim old [
  | none ↦ record {
    id = none;
    entrant = e;
    seed_num = some n;
    slot = some n;
    status = active_seat;
    source_advancement_rule = none;
  }
  | some s ↦ record {
    id = s.id;
    entrant = s.entrant;
    seed_num = some n;
    slot = some n;
    status = active_seat;
    source_advancement_rule = s.source_advancement_rule;
  }
]

abbrev pub numbered_seats : List PhaseGroupEntrant → ℕ → List Entrant → List PhaseGroupEntrant
numbered_seats known n [] = []
numbered_seats known n (e ∷ rest) =
    numbered_seat (find (λ (s : PhaseGroupEntrant). s.entrant.id == e.id) known) e n
    ∷ numbered_seats known (suc n) rest

-- The rows of the seats that are saved.
abbrev pub row_ids : List PhaseGroupEntrant → List ℕ
row_ids [] = []
row_ids (s ∷ seats) = elim s.id [ none ↦ row_ids seats | some i ↦ i ∷ row_ids seats ]

seats_in_order-eq :
    (known : List PhaseGroupEntrant) (n : ℕ) (es : List Entrant)
    → seats_in_order known n es ≡ numbered_seats known n es
seats_in_order-eq known n [] = refl
seats_in_order-eq known n (e ∷ es) =
    let rest = seats_in_order-eq known (suc n) es in
    elim (Option-cases (find (is_seat_of e.id) known)) [
      | inl k ↦ rw (k, rest) refl
      | inr (s, k) ↦ rw (k, rest) refl
    ]

dropped_ids-eq : (seats : List PhaseGroupEntrant) → dropped_ids seats ≡ row_ids seats
unfolding dropped_ids
dropped_ids-eq [] = refl
dropped_ids-eq (s ∷ seats) = elim (Option-cases s.id) [
  | inl e ↦ rw e (dropped_ids-eq seats)
  | inr (i, e) ↦ rw e (ap (◌∷◌ i) (dropped_ids-eq seats))
]

-- `seat`, on a pool in which nobody has two seats and a list in which nobody stands twice: the entrants
-- of the list have active seats with the seeds and slots 1, 2 and so on in its order, each the seat that
-- the entrant had before when there was one, and the rows of all other seats are to be removed.
pub seat-numbered_seats :
    (a : PhaseGroupAggregate) (es : List Entrant)
    → IsDistinct a.phase_group.entrants
    → IsDistinctEntrants es
    → seat a es ≡ record (with_seats a (numbered_seats a.phase_group.entrants 1 es)) {
      removed_seat_ids = a.removed_seat_ids ++ row_ids (left_out es a.phase_group.entrants);
    }
seat-numbered_seats a es d e =
    seat-eq a es d e
    ∙ rw
        (
          seats_in_order-eq a.phase_group.entrants 1 es,
          dropped_ids-eq (left_out es a.phase_group.entrants),
        )
        refl

pub seats_of-numbered_seats :
    (known : List PhaseGroupEntrant) (n : ℕ) (es : List Entrant) (id : ℕ)
    → seats_of id (numbered_seats known n es) ≡ count_if (is_entrant id) es
seats_of-numbered_seats known n es id =
    ap (seats_of id) (sym (seats_in_order-eq known n es)) ∙ seats_of-seats_in_order known n es id

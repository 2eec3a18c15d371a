-- ===== src/Bracket/Seats.antt =====
-- `seatFirstWave` and the plan of `Manual.generate`: who sits where.
use Prim.Native.Nat.{◌%◌}
use native.Mathlib.Nat.{mod-lt, mod-add-div', lt_of_mul-lt-mul_right}
use tournament_hub.Common.{
  ℕ, zero, suc, ◌+◌, ◌-◌, ◌*◌, ◌/◌, ◌≤◌, ◌<◌, ◌≡◌, refl, ap, ◌∙◌, List, [], ◌∷◌, ◌++◌, map, some,
  arith, length, get_elem?, All, ok, map_append, length-append,
}
use tournament_hub.Bracket.{
  BracketMatchNamer, BracketPlanBuilder, BracketPlan, BracketPlanMatch, BracketPlanSeat,
  BracketRoundKind, RoundLabel, ceil_div, new_builder, add_matches, add_round, seat_seed,
  seats_from, seat_first_wave, generate_manual, round_label, build, manual, single,
}

-- The numbers from `k` on, `n` of them.
unfoldable pub upto : ℕ → ℕ → List ℕ
upto k zero = []
upto k (suc n) = k ∷ upto (k + 1) n

get_elem?-upto : (k n i : ℕ) → i < n → get_elem? (upto k n) i ≡ some (k + i)
unfolding upto
get_elem?-upto k zero i h = absurd (omega (arith, h))
get_elem?-upto k (suc n) zero h = ap some (omega arith)
get_elem?-upto k (suc n) (suc i) h =
    get_elem?-upto (k + 1) n i (omega (arith, h)) ∙ ap some (omega arith)

-- The seeds fill the matches one after the other, from slot 1 on.
pub record IsSeated (player_per_match : ℕ) (s : BracketPlanSeat) : Type 0 where
  pub in_order : s.match_local_id * player_per_match + s.slot ≡ s.seed_index + 1
  pub first_slot : 1 ≤ s.slot
  pub last_slot : s.slot ≤ player_per_match

-- `Math.ceil(n / p)` matches of `p` hold `n` players.
ceil_div-holds : (n p : ℕ) → 1 ≤ p → n ≤ ceil_div n p * p
ceil_div-holds n p h = omega (arith, mod-add-div' (n + (p - 1)) p, mod-lt (n + (p - 1)) h, h)

-- One match fewer does not hold them.
ceil_div-least : (n p : ℕ) → 1 ≤ p → ceil_div n p * p - n < p
ceil_div-least n p h = omega (arith, mod-add-div' (n + (p - 1)) p, h)

module _ (p count : ℕ) (several : 1 ≤ p) where
  div-lt : (i : ℕ) → i < count * p → i / p < count
  div-lt i h = lt_of_mul-lt-mul_right p (omega (arith, mod-add-div' i p, h))

  seat_seed-eq :
      (i : ℕ)
      → i < count * p
      → seat_seed (upto 0 count) p i
        ≡ record { match_local_id = i / p; slot = i % p + 1; seed_index = i } ∷ []
  unfolding seat_seed
  seat_seed-eq i h = ground (arith, get_elem?-upto 0 count (i / p) (div-lt i h))

  seats_from_seeds :
      (i n : ℕ)
      → i + n ≤ count * p
      → map (λ (s : BracketPlanSeat). s.seed_index) (seats_from (upto 0 count) p i n) ≡ upto i n
  unfolding seats_from upto
  seats_from_seeds i zero h = refl
  seats_from_seeds i (suc n) h =
      rw (seat_seed-eq i (omega (arith, h)))
        (ap (◌∷◌ i) (seats_from_seeds (i + 1) n (omega (arith, h))))

  seats_from-IsSeated :
      (i n : ℕ) → i + n ≤ count * p → All (IsSeated p) (seats_from (upto 0 count) p i n)
  unfolding seats_from
  seats_from-IsSeated i zero h = tt
  seats_from-IsSeated i (suc n) h = rw (seat_seed-eq i (omega (arith, h))) (
    record {
      in_order = omega (arith, mod-add-div' i p);
      first_slot = omega arith;
      last_slot = omega (arith, mod-lt i several);
    },
    seats_from-IsSeated (i + 1) n (omega (arith, h)),
  )

upto-snoc : (k n j : ℕ) → j ≡ k + n → upto k n ++ j ∷ [] ≡ upto k (suc n)
unfolding upto
upto-snoc k zero j h = ap (λ x. x ∷ []) (omega (arith, h))
upto-snoc k (suc n) j h = ap (◌∷◌ k) (upto-snoc (k + 1) n j (omega (arith, h)))

none_upto : [] ≡ upto 0 0
unfolding upto
none_upto = refl

abbrev pub local_ids : List BracketPlanMatch → List ℕ
local_ids = map (λ (m : BracketPlanMatch). m.local_id)

-- `addRound` numbers its matches on from those that are there.
module _ (name : BracketMatchNamer) (kind : BracketRoundKind) (index rounds count : ℕ)
    (round : RoundLabel) where
  abbrev with_next : ℕ → BracketPlanBuilder → BracketPlanBuilder
  with_next i b = record b {
    matches =
        b.matches
        ++ record {
          local_id = length b.matches;
          name = name (record {
            kind = kind;
            round_index = index;
            round_count = rounds;
            match_index = i;
            match_count = count;
          });
          round = round;
        }
          ∷ [];
  }

  length-with_next :
      (i k : ℕ) (b : BracketPlanBuilder)
      → length b.matches ≡ k
      → length (with_next i b).matches ≡ k + 1
  length-with_next i k b h = length-append b.matches _ ∙ ap (λ x. x + 1) h

  with_next-local_ids :
      (i k : ℕ) (b : BracketPlanBuilder)
      → length b.matches ≡ k
      → local_ids b.matches ≡ upto 0 k
      → local_ids (with_next i b).matches ≡ upto 0 (k + 1)
  with_next-local_ids i k b h e =
      map_append (λ (m : BracketPlanMatch). m.local_id) b.matches _
      ∙ rw e (upto-snoc 0 k (length b.matches) (omega (arith, h)) ∙ ap (upto 0) (omega arith))

  add_matches-ids :
      (i left k : ℕ) (b : BracketPlanBuilder)
      → length b.matches ≡ k
      → (add_matches name kind index rounds count round i left b).1 ≡ upto k left
  unfolding add_matches upto
  add_matches-ids i zero k b h = refl
  add_matches-ids i (suc left) k b h =
      rw (add_matches-ids (i + 1) left (k + 1) (with_next i b) (length-with_next i k b h))
        (ap (λ x. x ∷ upto (k + 1) left) h)

  add_matches-local_ids :
      (i left k : ℕ) (b : BracketPlanBuilder)
      → length b.matches ≡ k
      → local_ids b.matches ≡ upto 0 k
      → local_ids (add_matches name kind index rounds count round i left b).0.matches
        ≡ upto 0 (k + left)
  unfolding add_matches
  add_matches-local_ids i zero k b h e = e ∙ ap (upto 0) (omega arith)
  add_matches-local_ids i (suc left) k b h e =
      add_matches-local_ids (i + 1) left (k + 1) (with_next i b) (length-with_next i k b h)
        (with_next-local_ids i k b h e)
      ∙ ap (upto 0) (omega arith)

  add_matches-seats :
      (i left : ℕ) (b : BracketPlanBuilder)
      → (add_matches name kind index rounds count round i left b).0.seats ≡ b.seats
  unfolding add_matches
  add_matches-seats i zero b = refl
  add_matches-seats i (suc left) b = add_matches-seats (i + 1) left (with_next i b)

-- What a plan of one round of `count` matches of `p` players says of `n` entrants: the matches are
-- numbered from 0 on; every entrant has one seat, in the order of the seeds; and the rest are byes, fewer
-- than would fill a match.
pub record IsFilled (count p n : ℕ) (plan : BracketPlan) : Type 0 where
  pub matches : local_ids plan.matches ≡ upto 0 count
  pub seeds : map (λ (s : BracketPlanSeat). s.seed_index) plan.seats ≡ upto 0 n
  pub seated : All (IsSeated p) plan.seats
  pub balanced : plan.byes + n ≡ count * p
  pub least : plan.byes < p

-- For two or more players in a match, `Manual.generate` returns a plan in which the seeds fill the
-- least number of matches one after the other: every entrant has one seat, each slot lies between 1
-- and the number of players in a match, byes and entrants together fill the matches,
-- and the byes are fewer than the players of a match.
pub generate_manual-IsFilled :
    (name : BracketMatchNamer) (n p : ℕ)
    → 2 ≤ p
    → (plan : BracketPlan) × (generate_manual name n p ≡ ok plan) × IsFilled (ceil_div n p) p n plan
unfolding generate_manual add_round seat_first_wave
generate_manual-IsFilled name n p h =
    let count = ceil_div n p in
    let holds = ceil_div-holds n p (omega (arith, h)) in
    let ids = add_matches-ids name single 0 1 count (round_label 1) 0 count 0 new_builder refl in
    let none_yet = add_matches-seats name single 0 1 count (round_label 1) 0 count new_builder in
    let round = add_round name new_builder single 0 1 count (round_label 1) in
    (
      build (seat_first_wave round.0 round.1 n p) manual n p (count * p - n),
      ground (arith, h),
      record {
        matches =
            add_matches-local_ids name single 0 1 count (round_label 1) 0 count 0 new_builder refl
              none_upto
            ∙ ap (upto 0) (omega arith);
        seeds =
            rw (none_yet, ids)
              (seats_from_seeds p count (omega (arith, h)) 0 n (omega (arith, holds)));
        seated =
            rw (none_yet, ids)
              (seats_from-IsSeated p count (omega (arith, h)) 0 n (omega (arith, holds)));
        balanced = omega (arith, holds);
        least = ceil_div-least n p (omega (arith, h));
      },
    )

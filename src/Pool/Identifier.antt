-- ===== src/Pool/Identifier.antt =====
-- `PhaseGroupAggregate.nextIdentifier` and `create`: the name of a new pool.
-- The loop takes fuel, one more than there are names taken; `none` means that it ran out. A number is
-- written in decimal, as a template literal does.
use tournament_hub.Common.{
  ℕ, zero, suc, ◌+◌, ◌/◌, ◌%◌, Bool, true, false, List, [], ◌∷◌, ◌++◌, Option, none, some, ltb,
  ◌==◌, ◌&&◌, if◌then◌else◌, or_else, any, length,
}
use tournament_hub.Common.Text.{trim}
use tournament_hub.Pool.{PhaseGroup, PhaseGroupAggregate, PhaseGroupDetails, pending}

unfoldable pub decimal : ℕ → ℕ → List ℕ
decimal zero n = []
decimal (suc fuel) n =
    let high = decimal fuel (n / 10) in
    if ltb n 10 then (48 + n) ∷ [] else high ++ (48 + n % 10) ∷ []

-- "Pool"
abbrev pub default_identifier : List ℕ
default_identifier = 80 ∷ 111 ∷ 111 ∷ 108 ∷ []

-- `${DEFAULT_IDENTIFIER} ${number}`
unfoldable pub numbered : ℕ → List ℕ
unfolding decimal
numbered n = default_identifier ++ 32 ∷ decimal (suc n) n

unfoldable pub same_text : List ℕ → List ℕ → Bool
same_text [] [] = true
same_text [] (c ∷ t) = false
same_text (c ∷ s) [] = false
same_text (c ∷ s) (d ∷ t) = (c == d) && same_text s t

abbrev pub is_empty : List ℕ → Bool
is_empty [] = true
is_empty (c ∷ s) = false

-- `.filter(Boolean)` on a trimmed text, which may be absent.
abbrev pub when_given : Option (List ℕ) → List (List ℕ)
when_given none = []
when_given (some text) = let kept = trim text in if is_empty kept then [] else kept ∷ []

unfoldable pub taken_identifiers : List PhaseGroup → List (List ℕ)
taken_identifiers [] = []
taken_identifiers (pool ∷ rest) =
    (when_given pool.display_identifier ++ when_given (some pool.name)) ++ taken_identifiers rest

-- `while (taken.has(...)) number += 1`
unfoldable pub first_free : ℕ → List (List ℕ) → ℕ → Option ℕ
unfolding same_text numbered
first_free zero taken number = none
first_free (suc fuel) taken number =
    let later = first_free fuel taken (suc number) in
    if any (same_text (numbered number)) taken then later else some number

unfoldable pub next_identifier : List PhaseGroup → Option (List ℕ)
unfolding first_free taken_identifiers
next_identifier [] = some default_identifier
next_identifier (pool ∷ rest) =
    let taken = taken_identifiers (pool ∷ rest) in
    elim (first_free (suc (length taken)) taken (suc (length (pool ∷ rest)))) [
      | none ↦ none
      | some number ↦ some (numbered number)
    ]

-- `text?.trim() || fallback`
abbrev pub trimmed_or : Option (List ℕ) → List ℕ → List ℕ
trimmed_or text fallback = elim (when_given text) [ [] ↦ fallback | kept ∷ _ ↦ kept ]

abbrev pub shown_identifier : PhaseGroupDetails → List PhaseGroup → Option (List ℕ)
shown_identifier details pools = elim (when_given (or_else details.display_identifier none)) [
  | [] ↦ next_identifier pools
  | kept ∷ _ ↦ some kept
]

-- The id is the one that saving will give.
unfoldable pub create : PhaseGroupDetails → List PhaseGroup → ℕ → Option PhaseGroupAggregate
unfolding next_identifier
create details pools id = elim (shown_identifier details pools) [
  | none ↦ none
  | some shown ↦ some (record {
    phase_group = record {
      id = id;
      name = trimmed_or details.name shown;
      display_identifier = some shown;
      bracket_type = or_else details.bracket_type none;
      state = pending;
      entrants = [];
      matches = [];
    };
    removed_seat_ids = [];
  })
]

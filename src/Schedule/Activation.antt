-- ===== src/Schedule/Activation.antt =====
-- What a recalculation of a schedule does, and what it guarantees of the match that it activates.
use mathlib.Core.List.{flatten}
use tournament_hub.Common.{
  ℕ, suc, ◌+◌, ◌⊎◌, none, or_else, if◌then◌else◌, ap, ◌∙◌, sym, subst, ◌≡◌, refl, inl, inr, true,
  false, not, ◌&&◌, List, [], ◌∷◌, ◌++◌, map, Option, Option-cases, some, arith, ◌==◌, Bool-cases,
  any, filter, All, length, drop,
}
use tournament_hub.Schedule.{Schedule, is_running}
use tournament_hub.Schedule.Eligibility.{
  eligible, evaluate_local_eligibility, evaluate_conflicts, IsPlayable, eligible_iff_IsPlayable,
}
use tournament_hub.Schedule.Runner.{
  ScheduleEntrySnapshot, ScheduleEntryRow, ScheduleTransition, ActiveMatch, EntryUpdate, walk, play,
  is_in, entry_of, current_index, index_of, recalculate_locked, passed_updates, passed_active,
  conflicts_of, contains, active_conflicts, distinct, conflict_rows,
}
use tournament_hub.Schedule.Walk.{
  has_passed, first_open, before_open, walk-eq-finish, walk-IsAdvance, IsAdvance,
  first_open-not_passed,
}

-- The entries from the first one with the id on.
abbrev pub from_entry : ℕ → List ScheduleEntrySnapshot → Option (List ScheduleEntrySnapshot)
from_entry id [] = none
from_entry id (e ∷ entries) = if e.entry_id == id then some (e ∷ entries) else from_entry id entries

-- The entries that a recalculation goes through: those from the current one on, and all of them when
-- there is no current one, or none that has its id.
abbrev pub remaining : Schedule → List ScheduleEntryRow → List ScheduleEntrySnapshot
remaining s rows =
    let entries = map (entry_of s.current_entry_id) rows in
    elim s.current_entry_id [ none ↦ entries | some id ↦ or_else (from_entry id entries) entries ]

index_of-from_entry :
    (id k : ℕ) (entries : List ScheduleEntrySnapshot)
    → ((from_entry id entries ≡ none) × (index_of id k entries ≡ 0))
      ⊎ ((i : ℕ) × (from_entry id entries ≡ some (drop i entries))
          × (index_of id k entries ≡ k + i))
unfolding index_of
index_of-from_entry id k [] = inl (refl, refl)
index_of-from_entry id k (e ∷ entries) = elim (Bool-cases (e.entry_id == id)) [
  | inl same ↦ inr (0, ground (arith, same), ground (arith, same))
  | inr other ↦ elim (index_of-from_entry id (k + 1) entries) [
    | inl f ↦ inl (ground (arith, other, f.0), ground (arith, other, f.1))
    | inr (i, found, at) ↦ inr (suc i, ground (arith, other, found), ground (arith, other, at))
  ]
]

drop-index_of :
    (id : ℕ) (entries : List ScheduleEntrySnapshot)
    → drop (index_of id 0 entries) entries ≡ or_else (from_entry id entries) entries
drop-index_of id entries = elim (index_of-from_entry id 0 entries) [
  | inl f ↦ rw (f.0, f.1) refl
  | inr (i, found, at) ↦
      let here : index_of id 0 entries ≡ i = omega (arith, at) in rw (found, here) refl
]

drop-remaining :
    (s : Schedule) (rows : List ScheduleEntryRow)
    → (let entries = map (entry_of s.current_entry_id) rows in
        drop (current_index s.current_entry_id entries) entries)
      ≡ remaining s rows
drop-remaining s rows = elim (Option-cases s.current_entry_id) [
  | inl e ↦ rw e refl
  | inr (id, e) ↦ rw e (drop-index_of id (map (entry_of (some id)) rows))
]

-- A recalculation of a running schedule goes through the remaining entries.
pub recalculate_locked-walk :
    (matches : List ActiveMatch) (active_match_of : ℕ → Option ℕ) (now : ℕ)
    (rows : List ScheduleEntryRow) (s : Schedule)
    → is_running s.status ≡ true
    → recalculate_locked matches active_match_of now true rows s
      ≡ walk matches now s [] [] (remaining s rows)
unfolding recalculate_locked
recalculate_locked-walk matches active_match_of now rows s h =
    rw h (ap (walk matches now s [] []) (drop-remaining s rows))

-- A recalculation of a running schedule in an open tournament moves it to the first entry, from the
-- current one on, whose match is not decided, or is removed or of another tournament; without such an entry it
-- completes the schedule. The matches of the entries before that are deactivated, where active.
pub recalculate_locked-IsAdvance :
    (matches : List ActiveMatch) (active_match_of : ℕ → Option ℕ) (now : ℕ)
    (rows : List ScheduleEntryRow) (s : Schedule)
    → is_running s.status ≡ true
    → IsAdvance s (remaining s rows) (recalculate_locked matches active_match_of now true rows s)
recalculate_locked-IsAdvance matches active_match_of now rows s h =
    subst (IsAdvance s (remaining s rows))
      (sym (recalculate_locked-walk matches active_match_of now rows s h))
      (walk-IsAdvance matches now s (remaining s rows))

-- No player of the list is in an active match of the tournament, but for the settled matches.
abbrev pub Apart : ℕ → List ℕ → List ℕ → List ActiveMatch → Type 0
Apart tournament settled players = All (λ (a : ActiveMatch).
    ((a.tournament_id == tournament) && not (contains settled a.id)) ≡ true
    → any (contains players) a.player_ids ≡ false)

distinct-none : (l : List ℕ) → (length (distinct l) == 0) ≡ true → l ≡ []
unfolding distinct
distinct-none [] h = refl
distinct-none (x ∷ rest) h = absurd (ground (arith, h))

map-none {ℓ κ} : {A : Type ℓ} {B : Type κ} (f : A → B) (l : List A) → map f l ≡ [] → l ≡ []
map-none f [] h = refl
map-none f (x ∷ l) h = cc

any-no_rows :
    (players : List ℕ) (id : ℕ) (l : List ℕ)
    → map {B = ℕ × ℕ} (λ p. (id, p)) (filter (contains players) l) ≡ []
    → any (contains players) l ≡ false
any-no_rows players id [] h = refl
any-no_rows players id (p ∷ l) h = elim (Bool-cases (contains players p)) [
  | inl e ↦ absurd (cc (rw e at h))
  | inr e ↦ rw e (any-no_rows players id l (rw e at h))
]

append-none {ℓ} : {A : Type ℓ} (l m : List A) → l ++ m ≡ [] → (l ≡ []) × (m ≡ [])
append-none [] m h = (refl, h)
append-none (x ∷ l) m h = cc

active_conflicts-Apart :
    (tournament : ℕ) (settled players : List ℕ) (matches : List ActiveMatch)
    → active_conflicts matches tournament settled players ≡ []
    → Apart tournament settled players matches
unfolding active_conflicts flatten
active_conflicts-Apart tournament settled players [] h = tt
active_conflicts-Apart tournament settled players (a ∷ matches) h =
    elim (Bool-cases ((a.tournament_id == tournament) && not (contains settled a.id))) [
      | inl e ↦
          let (own, others) = append-none (conflict_rows players a) _ (rw e at h) in
          (
            λ _. any-no_rows players a.id a.player_ids own,
            active_conflicts-Apart tournament settled players matches others,
          )
      | inr e ↦ (
        λ k. absurd (cc (rw e at k)),
        active_conflicts-Apart tournament settled players matches (rw e at h),
      )
    ]

-- The activated match is that of the first open entry; it is in the tournament, playable and so far
-- inactive; and its players are in no active match of the tournament that stays active.
pub record IsActivation (matches : List ActiveMatch) (s : Schedule)
    (entries : List ScheduleEntrySnapshot) (t : ScheduleTransition) (m : ℕ) : Type 0 where
  pub entry : ScheduleEntrySnapshot
  pub first : first_open s.tournament_id entries ≡ some entry
  pub is_its_match : m ≡ entry.match.match_id
  pub in_tournament : is_in entry.tournament_id s.tournament_id ≡ true
  pub playable : IsPlayable entry.match
  pub was_inactive : entry.match.active ≡ false
  pub apart : Apart s.tournament_id (m ∷ t.deactivated) entry.match.player_ids matches

module _ (matches : List ActiveMatch) (now : ℕ) (s : Schedule) where
  activated-facts :
      (u : List EntryUpdate) (d : List ScheduleEntrySnapshot) (e : ScheduleEntrySnapshot) (m : ℕ)
      → (walk matches now s u d (e ∷ [])).activated ≡ some m
      → has_passed s.tournament_id e ≡ false
      → (m ≡ e.match.match_id)
        × (is_in e.tournament_id s.tournament_id ≡ true)
        × (evaluate_local_eligibility e.match ≡ eligible)
        × (e.match.active ≡ false)
        × ((length (conflicts_of matches s.tournament_id e d).blocking_match_ids == 0) ≡ true)
  unfolding walk play has_passed evaluate_conflicts
  activated-facts u d e m h k =
      (ground arith, ground arith, ground arith, ground arith, ground arith)

  Apart-of_no_conflict :
      (e : ScheduleEntrySnapshot) (d : List ScheduleEntrySnapshot)
      → (length (conflicts_of matches s.tournament_id e d).blocking_match_ids == 0) ≡ true
      → Apart s.tournament_id
          (e.match.match_id ∷ map (λ (f : ScheduleEntrySnapshot). f.match.match_id) d)
          e.match.player_ids
          matches
  unfolding conflicts_of
  Apart-of_no_conflict e d h =
      active_conflicts-Apart s.tournament_id
        (e.match.match_id ∷ map (λ (f : ScheduleEntrySnapshot). f.match.match_id) d)
        e.match.player_ids matches (map-none (λ (r : ℕ × ℕ). r.0) _ (distinct-none _ h))

  walk-IsActivation :
      (entries : List ScheduleEntrySnapshot) (m : ℕ)
      → (walk matches now s [] [] entries).activated ≡ some m
      → IsActivation matches s entries (walk matches now s [] [] entries) m
  walk-IsActivation entries m h =
      let u = before_open s.tournament_id (passed_updates now) entries in
      let d = before_open s.tournament_id passed_active entries in
      let same = walk-eq-finish matches now s [] [] entries in
      elim (Option-cases (first_open s.tournament_id entries)) [
        | inl k ↦ absurd (cc (rw (same, k) at h))
        | inr (e, k) ↦
            let open_here = first_open-not_passed s.tournament_id entries e k in
            let known = activated-facts u d e m (rw (same, k) at h) open_here in
            let left = (walk-IsAdvance matches now s entries).deactivated in
            record {
              entry = e;
              first = k;
              is_its_match = known.0;
              in_tournament = known.1;
              playable = (eligible_iff_IsPlayable e.match).0 known.2;
              was_inactive = known.3;
              apart = rw (left, known.0) (Apart-of_no_conflict e d known.4);
            }
      ]

-- Where a recalculation of a running schedule in an open tournament activates a match, this is the
-- match of the first remaining entry that is not decided; it has its players, at least two, and a
-- round, and is neither completed nor ready nor active; and none of its players is in an active match
-- of the tournament but for the match itself and those that are deactivated along with it.
pub recalculate_locked-IsActivation :
    (matches : List ActiveMatch) (active_match_of : ℕ → Option ℕ) (now : ℕ)
    (rows : List ScheduleEntryRow) (s : Schedule) (m : ℕ)
    → is_running s.status ≡ true
    → (recalculate_locked matches active_match_of now true rows s).activated ≡ some m
    → IsActivation matches s
        (remaining s rows)
        (recalculate_locked matches active_match_of now true rows s)
        m
recalculate_locked-IsActivation matches active_match_of now rows s m h k =
    let same = recalculate_locked-walk matches active_match_of now rows s h in
    subst (λ t. IsActivation matches s (remaining s rows) t m) (sym same)
      (walk-IsActivation matches now s (remaining s rows) m (ap (λ t. t.activated) (sym same) ∙ k))

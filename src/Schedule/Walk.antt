-- ===== src/Schedule/Walk.antt =====
-- Where a recalculation stops, and what it may activate.
use mathlib.Core.List.{append-nil, append_assoc}
use tournament_hub.Common.{
  ℕ, ◌≡◌, refl, ◌∙◌, inl, inr, Bool, true, false, not, ◌&&◌, List, [], ◌∷◌, ◌++◌, map, Option,
  Option-cases, none, some, arith, if◌then◌else◌, Bool-cases, is_some, find,
}
use tournament_hub.Schedule.{Schedule, completed, wait_at, activate, complete}
use tournament_hub.Schedule.Eligibility.{
  ScheduleEligibility, passed, eligible, stale, evaluate_local_eligibility,
}
use tournament_hub.Schedule.Runner.{
  ScheduleEntrySnapshot, ScheduleTransition, ActiveMatch, EntryUpdate, walk, play, settle, is_in,
  passed_updates, passed_active,
}

abbrev pub is_passed_verdict : ScheduleEligibility → Bool
is_passed_verdict passed = true
is_passed_verdict eligible = false
is_passed_verdict (stale code details) = false

-- The match of the entry is there, in the tournament, and decided.
unfoldable pub has_passed : ℕ → ScheduleEntrySnapshot → Bool
has_passed tournament e =
    e.match_exists
    && is_in e.tournament_id tournament
    && is_passed_verdict (evaluate_local_eligibility e.match)

-- The entry that a recalculation has to deal with.
abbrev pub first_open : ℕ → List ScheduleEntrySnapshot → Option ScheduleEntrySnapshot
first_open tournament entries = find (λ e. not (has_passed tournament e)) entries

-- What the passed entries before it contribute.
unfoldable pub before_open {ℓ} :
    {A : Type ℓ} → ℕ → (ScheduleEntrySnapshot → List A) → List ScheduleEntrySnapshot → List A
before_open tournament f [] = []
before_open tournament f (e ∷ rest) =
    let others = before_open tournament f rest in
    if has_passed tournament e then f e ++ others else []

-- What a recalculation of a running schedule leaves behind: it stands at the first entry that has not
-- passed, or is completed when there is none, and the passed active matches are deactivated.
pub record IsAdvance (s : Schedule) (entries : List ScheduleEntrySnapshot) (t : ScheduleTransition)
    : Type 0 where
  pub current :
      t.schedule.current_entry_id
      ≡ elim (first_open s.tournament_id entries) [ none ↦ none | some e ↦ some e.entry_id ]
  pub status :
      t.schedule.status
      ≡ (if is_some (first_open s.tournament_id entries) then s.status else completed)
  pub deactivated :
      t.deactivated
      ≡ map
          (λ (e : ScheduleEntrySnapshot). e.match.match_id)
          (before_open s.tournament_id passed_active entries)

-- The entry found first is open.
pub first_open-not_passed :
    (t : ℕ) (entries : List ScheduleEntrySnapshot) (e : ScheduleEntrySnapshot)
    → first_open t entries ≡ some e
    → has_passed t e ≡ false
first_open-not_passed t [] e h = cc
first_open-not_passed t (f ∷ rest) e h = elim (Bool-cases (has_passed t f)) [
  | inl k ↦ first_open-not_passed t rest e (rw k at h)
  | inr k ↦ ground (arith, k, h)
]

module _ (matches : List ActiveMatch) (now : ℕ) where
  abbrev pub finish :
      Schedule
      → List EntryUpdate
      → List ScheduleEntrySnapshot
      → Option ScheduleEntrySnapshot
      → ScheduleTransition
  finish s updates deactivated none = settle (complete s) updates deactivated none
  finish s updates deactivated (some e) = walk matches now s updates deactivated (e ∷ [])

  walk-open :
      (s : Schedule) (u : List EntryUpdate) (d : List ScheduleEntrySnapshot)
      (e : ScheduleEntrySnapshot) (rest : List ScheduleEntrySnapshot)
      → has_passed s.tournament_id e ≡ false
      → walk matches now s u d (e ∷ rest) ≡ walk matches now s u d (e ∷ [])
  unfolding walk has_passed
  walk-open s u d e rest h = ground arith

  walk-passed :
      (s : Schedule) (u : List EntryUpdate) (d : List ScheduleEntrySnapshot)
      (e : ScheduleEntrySnapshot) (rest : List ScheduleEntrySnapshot)
      → has_passed s.tournament_id e ≡ true
      → walk matches now s u d (e ∷ rest)
        ≡ walk matches now s (u ++ passed_updates now e) (d ++ passed_active e) rest
  unfolding walk has_passed
  walk-passed s u d e rest h = ground arith

  -- The loop stops at the first open entry, with what the passed entries before it contribute.
  pub walk-eq-finish :
      (s : Schedule) (u : List EntryUpdate) (d entries : List ScheduleEntrySnapshot)
      → walk matches now s u d entries
        ≡ finish s
            (u ++ before_open s.tournament_id (passed_updates now) entries)
            (d ++ before_open s.tournament_id passed_active entries)
            (first_open s.tournament_id entries)
  unfolding before_open
  walk-eq-finish s u d [] = unfold walk in rw (append-nil u, append-nil d) refl
  walk-eq-finish s u d (e ∷ rest) = elim (Bool-cases (has_passed s.tournament_id e)) [
    | inl h ↦
        let t = s.tournament_id in
        walk-passed s u d e rest h
        ∙ walk-eq-finish s (u ++ passed_updates now e) (d ++ passed_active e) rest
        ∙ rw
            (
              h,
              append_assoc u (passed_updates now e) (before_open t (passed_updates now) rest),
              append_assoc d (passed_active e) (before_open t passed_active rest),
            )
            refl
    | inr h ↦ walk-open s u d e rest h ∙ rw (h, append-nil u, append-nil d) refl
  ]

  -- At an open entry, the loop waits or plays.
  pub finish-eq :
      (s : Schedule) (u : List EntryUpdate) (d : List ScheduleEntrySnapshot)
      (found : Option ScheduleEntrySnapshot)
      → (e : ScheduleEntrySnapshot) → found ≡ some e
      → has_passed s.tournament_id e ≡ false
      → ((finish s u d found).schedule.current_entry_id ≡ some e.entry_id)
        × ((finish s u d found).schedule.status ≡ s.status)
        × ((finish s u d found).deactivated
            ≡ map (λ (e : ScheduleEntrySnapshot). e.match.match_id) d)
  unfolding walk has_passed play wait_at activate
  finish-eq s u d none e h k = cc
  finish-eq s u d (some f) e h k = ground arith

  completes :
      (s : Schedule) (entries : List ScheduleEntrySnapshot) (u : List EntryUpdate)
      → first_open s.tournament_id entries ≡ none
      → IsAdvance s entries (
          finish s u
            (before_open s.tournament_id passed_active entries)
            (first_open s.tournament_id entries))
  unfolding complete
  completes s entries u h = record {
    current = rw h refl;
    status = rw h refl;
    deactivated = rw h refl;
  }

  pub walk-IsAdvance :
      (s : Schedule) (entries : List ScheduleEntrySnapshot)
      → IsAdvance s entries (walk matches now s [] [] entries)
  walk-IsAdvance s entries =
      let u = before_open s.tournament_id (passed_updates now) entries in
      let d = before_open s.tournament_id passed_active entries in
      rw (walk-eq-finish s [] [] entries)
        (elim (Option-cases (first_open s.tournament_id entries)) [
          | inl h ↦ completes s entries u h
          | inr (e, h) ↦
              let known =
                finish-eq s u d (first_open s.tournament_id entries) e h
                  (first_open-not_passed s.tournament_id entries e h) in
              record {
                current = known.0 ∙ rw h refl;
                status = known.1 ∙ rw h refl;
                deactivated = known.2;
              }
        ])

-- ===== src/Schedule/Valid.antt =====
-- The life of a schedule: the steps that change it, and what holds of every schedule they reach.
use tournament_hub.Common.{
  ℕ, ◌≡◌, refl, subst, inl, inr, Bool, false, not, ◌&&◌, List, [], ◌∷◌, ◌++◌, Option, some, arith,
  Bool-cases, is_some, Result, ok, err, >>=-eq-ok, ok_injective,
}
use tournament_hub.Schedule.{
  Schedule, ScheduleEntry, ScheduleInterruptionCode, ScheduleStaleCode, ScheduleStaleDetails,
  InterruptionDetails, is_running, is_done, create, assert_editable, rename, update_details, start,
  stop, interrupt_completed_run, wait_at, activate, complete, archive, unarchive, replace_entries,
  ScheduleError, tournament_closed,
}
use tournament_hub.Schedule.Runner.{
  ScheduleEntryRow, ScheduleEntrySnapshot, ActiveMatch, EntryUpdate, recalculate_locked, walk, play,
  closed, passed_updates, passed_active,
}

-- A stale code comes with its details and an interruption with its date; only a completed schedule is
-- archived; and a running one is not interrupted.
pub record IsValid (s : Schedule) : Type 0 where
  pub stale_paired : is_some s.stale_code ≡ is_some s.stale_details
  pub dated : is_some s.interruption_code ≡ is_some s.interrupted_at
  pub archived_done : (is_some s.archived_at && not (is_done s.status)) ≡ false
  pub undisturbed : (is_running s.status && is_some s.interruption_code) ≡ false

-- The calls of the aggregate that the commands and the runner make, each where it succeeds.
pub data ScheduleStep (s : Schedule) (s' : Schedule) : Type 0 where
  renamed : (name : List ℕ) → rename s name ≡ ok s' → ScheduleStep s s'
  updated : (name : List ℕ) (date : ℕ) → update_details s name date ≡ ok s' → ScheduleStep s s'
  started : (entry_id : Option ℕ) → start s entry_id ≡ ok s' → ScheduleStep s s'
  stopped :
      (code : Option ScheduleInterruptionCode) (details : Option InterruptionDetails) (now : ℕ)
      → stop s code details now ≡ ok s'
      → ScheduleStep s s'
  reopened :
      (entry_id : ℕ) (code : ScheduleInterruptionCode) (details : Option InterruptionDetails)
      (now : ℕ)
      → interrupt_completed_run s entry_id code details now ≡ ok s'
      → ScheduleStep s s'
  archived : (now : ℕ) → archive s now ≡ ok s' → ScheduleStep s s'
  unarchived : unarchive s ≡ ok s' → ScheduleStep s s'
  replaced : (entries : List ScheduleEntry) → replace_entries s entries ≡ ok s' → ScheduleStep s s'
  recalculated :
      (matches : List ActiveMatch) (active_match_of : ℕ → Option ℕ) (now : ℕ)
      (tournament_open : Bool) (rows : List ScheduleEntryRow)
      → (recalculate_locked matches active_match_of now tournament_open rows s).schedule ≡ s'
      → ScheduleStep s s'

-- The schedules that come about from a new one.
pub data Reachable : Schedule → Type 0 where
  created : (name : List ℕ) (date tournament_id : ℕ) → Reachable (create name date tournament_id)
  then_step : {s s' : Schedule} → Reachable s → ScheduleStep s s' → Reachable s'

wait_at-IsValid :
    (s : Schedule) (entry_id : ℕ) (code : ScheduleStaleCode) (details : ScheduleStaleDetails)
    → IsValid s
    → IsValid (wait_at s entry_id code details)
unfolding wait_at
wait_at-IsValid s entry_id code details v = record {
  stale_paired = refl;
  dated = v.dated;
  archived_done = v.archived_done;
  undisturbed = v.undisturbed;
}

activate-IsValid : (s : Schedule) (entry_id : ℕ) → IsValid s → IsValid (activate s entry_id)
unfolding activate
activate-IsValid s entry_id v = record {
  stale_paired = refl;
  dated = v.dated;
  archived_done = v.archived_done;
  undisturbed = v.undisturbed;
}

complete-IsValid : (s : Schedule) → IsValid s → IsValid (complete s)
unfolding complete
complete-IsValid s v = record {
  stale_paired = refl;
  dated = v.dated;
  archived_done = ground arith;
  undisturbed = refl;
}

-- An update through a guarded call.
stop-IsValid :
    (s s' : Schedule) (code : Option ScheduleInterruptionCode)
    (details : Option InterruptionDetails) (now : ℕ)
    → stop s code details now ≡ ok s'
    → IsValid s
    → IsValid s'
unfolding stop
stop-IsValid s s' code details now h v = record {
  stale_paired = ground (arith, h);
  dated = ground (arith, h);
  archived_done = ground (arith, h, v.archived_done);
  undisturbed = ground (arith, h);
}

start-IsValid :
    (s s' : Schedule) (entry_id : Option ℕ) → start s entry_id ≡ ok s' → IsValid s → IsValid s'
unfolding start assert_editable
start-IsValid s s' entry_id h v = record {
  stale_paired = ground (arith, h);
  dated = ground (arith, h);
  archived_done = ground (arith, h);
  undisturbed = ground (arith, h);
}

module _ (matches : List ActiveMatch) (now : ℕ) where
  play-IsValid :
      (s : Schedule) (u : List EntryUpdate) (d : List ScheduleEntrySnapshot)
      (e : ScheduleEntrySnapshot)
      → IsValid s
      → IsValid (play matches now s u d e).schedule
  unfolding play wait_at activate
  play-IsValid s u d e v = record {
    stale_paired = ground arith;
    dated = ground (arith, v.dated);
    archived_done = ground (arith, v.archived_done);
    undisturbed = ground (arith, v.undisturbed);
  }

  walk-IsValid :
      (s : Schedule) (u : List EntryUpdate) (d entries : List ScheduleEntrySnapshot)
      → IsValid s
      → IsValid (walk matches now s u d entries).schedule
  unfolding walk wait_at
  walk-IsValid s u d [] v = complete-IsValid s v
  walk-IsValid s u d (e ∷ rest) v =
      let later = walk-IsValid s (u ++ passed_updates now e) (d ++ passed_active e) rest v in
      let played = play-IsValid s u d e v in
      record {
        stale_paired = ground (arith, later.stale_paired, played.stale_paired);
        dated = ground (arith, v.dated, later.dated, played.dated);
        archived_done = ground (arith, v.archived_done, later.archived_done, played.archived_done);
        undisturbed = ground (arith, v.undisturbed, later.undisturbed, played.undisturbed);
      }

closed-IsValid : (s : Schedule) (now : ℕ) → IsValid s → IsValid (closed s now)
closed-IsValid s now v =
    of_result (stop s (some tournament_closed) (some ("tournamentId", s.tournament_id)) now)
      (λ s' h. stop-IsValid s s' _ _ now h v)
  where
    of_result :
        (r : Result ScheduleError Schedule)
        → ((s' : Schedule) → r ≡ ok s' → IsValid s')
        → IsValid (elim r [ err _ ↦ s | ok s' ↦ s' ])
    of_result (err e) h = v
    of_result (ok s') h = h s' refl

recalculate_locked-IsValid :
    (matches : List ActiveMatch) (active_match_of : ℕ → Option ℕ) (now : ℕ) (tournament_open : Bool)
    (rows : List ScheduleEntryRow) (s : Schedule)
    → IsValid s
    → IsValid (recalculate_locked matches active_match_of now tournament_open rows s).schedule
unfolding recalculate_locked
recalculate_locked-IsValid matches active_match_of now tournament_open rows s v =
    elim (Bool-cases (is_running s.status)) [
      | inr idle ↦ rw idle v
      | inl runs ↦ elim (Bool-cases tournament_open) [
        | inr shut ↦ rw (runs, shut) (closed-IsValid s now v)
        | inl open_now ↦ rw (runs, open_now) (walk-IsValid matches now s [] [] _ v)
      ]
    ]

-- Every call of the aggregate and every recalculation preserves the invariant.
ScheduleStep-IsValid : {s s' : Schedule} → ScheduleStep s s' → IsValid s → IsValid s'
unfolding rename update_details archive unarchive replace_entries interrupt_completed_run
ScheduleStep-IsValid {s} {s'} (renamed name h) v =
    let (_, _, e) = >>=-eq-ok (assert_editable s) _ h in
    subst IsValid (ok_injective e) (record {
      stale_paired = v.stale_paired;
      dated = v.dated;
      archived_done = v.archived_done;
      undisturbed = v.undisturbed;
    })
ScheduleStep-IsValid {s} {s'} (updated name date h) v =
    let (_, _, e) = >>=-eq-ok (assert_editable s) _ h in
    subst IsValid (ok_injective e) (record {
      stale_paired = v.stale_paired;
      dated = v.dated;
      archived_done = v.archived_done;
      undisturbed = v.undisturbed;
    })
ScheduleStep-IsValid {s} {s'} (started entry_id h) v = start-IsValid s s' entry_id h v
ScheduleStep-IsValid {s} {s'} (stopped code details now h) v =
    stop-IsValid s s' code details now h v
ScheduleStep-IsValid {s} {s'} (reopened entry_id code details now h) v = record {
  stale_paired = ground (arith, h);
  dated = ground (arith, h);
  archived_done = ground (arith, h);
  undisturbed = ground (arith, h);
}
ScheduleStep-IsValid {s} {s'} (archived now h) v = record {
  stale_paired = ground (arith, h, v.stale_paired);
  dated = ground (arith, h, v.dated);
  archived_done = ground (arith, h);
  undisturbed = ground (arith, h, v.undisturbed);
}
ScheduleStep-IsValid {s} {s'} (unarchived h) v = record {
  stale_paired = ground (arith, h, v.stale_paired);
  dated = ground (arith, h, v.dated);
  archived_done = ground (arith, h);
  undisturbed = ground (arith, h, v.undisturbed);
}
ScheduleStep-IsValid {s} {s'} (replaced entries h) v =
    let (_, _, e) = >>=-eq-ok (assert_editable s) _ h in
    subst IsValid (ok_injective e) (record {
      stale_paired = v.stale_paired;
      dated = v.dated;
      archived_done = v.archived_done;
      undisturbed = v.undisturbed;
    })
ScheduleStep-IsValid {s} {s'} (recalculated matches active_match_of now tournament_open rows h) v =
    subst IsValid h
      (recalculate_locked-IsValid matches active_match_of now tournament_open rows s v)

-- Every schedule that comes about from a new one by calls of the aggregate and by recalculations is
-- valid: a stale code comes with its details and an interruption with its date; only a completed
-- schedule is archived; and a running one is not interrupted.
pub Reachable-IsValid : {s : Schedule} → Reachable s → IsValid s
unfolding create
Reachable-IsValid (created name date tournament_id) = record {
  stale_paired = refl;
  dated = refl;
  archived_done = refl;
  undisturbed = refl;
}
Reachable-IsValid (then_step r step) = ScheduleStep-IsValid step (Reachable-IsValid r)

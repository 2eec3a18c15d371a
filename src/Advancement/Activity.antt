-- ===== src/Advancement/Activity.antt =====
-- What the recalculations of the schedules leave of the stored matches: all but the column `active`.
use tournament_hub.Common.{
  ℕ, ◌≡◌, refl, ap, ◌∙◌, sym, subst, inl, inr, Bool, false, ◌&&◌, List, [], ◌∷◌, map, arith, ◌==◌,
  ==_iff, if◌then◌else◌, Bool-cases, any, is_some, Option, none, some, find, All, All-map,
}
use tournament_hub.Match.Model.{Match}
use tournament_hub.Advancement.{
  ActivityChange, World, is_match_row, activity, set_active, recalculated, write_match,
}

abbrev pub inactive : Match → Match
inactive m = record m { active = false }

-- A stored match, but for being active or not.
abbrev pub but_active : Option Match → Option Match
but_active none = none
but_active (some m) = some (inactive m)

pub map-set_active :
    (changes : List ActivityChange) (l : List Match)
    → map inactive (set_active changes l) ≡ map inactive l
map-set_active changes [] = refl
map-set_active changes (m ∷ l) = ap (◌∷◌ (inactive m)) (map-set_active changes l)

abbrev pub row_after : List ActivityChange → Option Match → Option Match
row_after changes none = none
row_after changes (some m) = some (record m { active = activity m.id m.active changes })

pub find-set_active :
    (changes : List ActivityChange) (l : List Match) (id : ℕ)
    → find (is_match_row id) (set_active changes l) ≡ row_after changes (find (is_match_row id) l)
find-set_active changes [] id = refl
find-set_active changes (m ∷ l) id = elim (Bool-cases (m.id == id)) [
  | inl e ↦ rw e refl
  | inr e ↦ rw e (find-set_active changes l id)
]

pub but_active-row_after :
    (changes : List ActivityChange) (o : Option Match)
    → but_active (row_after changes o) ≡ but_active o
but_active-row_after changes none = refl
but_active-row_after changes (some m) = refl

abbrev pub is_done_row : ℕ → Match → Bool
is_done_row id m = (m.id == id) && is_some m.match_result

-- A stored match with the id has a result.
abbrev pub is_done : World → ℕ → Bool
is_done w id = any (is_done_row id) w.matches

abbrev pub IsCalmChange : List Match → ActivityChange → Type 0
IsCalmChange l c = (c.active && any (is_done_row c.match_id) l) ≡ false

-- No coming recalculation activates a match that has a result.
abbrev pub IsCalm : World → Type 0
IsCalm w = All (All (IsCalmChange w.matches)) w.coming

any-set_active :
    (changes : List ActivityChange) (l : List Match) (id : ℕ)
    → any (is_done_row id) (set_active changes l) ≡ any (is_done_row id) l
any-set_active changes [] id = refl
any-set_active changes (m ∷ l) id = ground (arith, any-set_active changes l id)

pub any-write_match :
    (m x : Match) (l : List Match) (id : ℕ)
    → find (is_match_row m.id) l ≡ some x
    → m.match_result ≡ x.match_result
    → any (is_done_row id) (write_match m l) ≡ any (is_done_row id) l
unfolding write_match
any-write_match m x [] id h e = cc
any-write_match m x (y ∷ l) id h e = elim (Bool-cases (y.id == m.id)) [
  | inl k ↦
      let same : y ≡ x = ground (arith, h, k) in
      let result : is_some m.match_result ≡ is_some y.match_result =
        ap is_some (e ∙ sym (ap (λ (z : Match). z.match_result) same)) in
      rw (write_match, k) (ground (arith, result, (==_iff y.id m.id).0 k))
  | inr k ↦ rw (write_match, k) (ground (arith, any-write_match m x l id (ground (arith, h, k)) e))
]

-- The same matches are done, so the same changes are calm.
pub IsCalm-matches :
    (l k : List Match) (coming : List (List ActivityChange))
    → ((id : ℕ) → any (is_done_row id) k ≡ any (is_done_row id) l)
    → All (All (IsCalmChange l)) coming
    → All (All (IsCalmChange k)) coming
IsCalm-matches l k coming e =
    All-map (All (IsCalmChange l))
      (λ changes. All-map (IsCalmChange l) (λ c h. ground (arith, h, e c.match_id)) changes) coming

pub recalculated-IsCalm :
    (coming : List (List ActivityChange)) (w : World)
    → w.coming ≡ coming
    → IsCalm w
    → IsCalm (recalculated coming w)
recalculated-IsCalm [] w e c = c
recalculated-IsCalm (changes ∷ rest) w e c =
    IsCalm-matches w.matches (set_active changes w.matches) rest (any-set_active changes w.matches)
      (subst (All (All (IsCalmChange w.matches))) e c).1

-- A match with a result stays inactive.
activity-idle :
    (id : ℕ) (done active : Bool) (changes : List ActivityChange)
    → (done && active) ≡ false
    → All (λ (c : ActivityChange). (c.active && ((id == c.match_id) && done)) ≡ false) changes
    → (done && activity id active changes) ≡ false
activity-idle id done active [] h all = h
activity-idle id done active (c ∷ changes) h all =
    activity-idle id done (if c.match_id == id then c.active else active) changes
      (ground (arith, h, all.0, ==_iff id c.match_id, ==_iff c.match_id id)) all.1

pub All-set_active {κ} :
    (P : Match → Type κ) (changes : List ActivityChange) (l : List Match)
    → ((m : Match)
        → (b : Bool) → (is_some m.match_result && b) ≡ false
        → P m
        → P (record m { active = b }))
    → ((m : Match) → P m → (is_some m.match_result && m.active) ≡ false)
    → All (IsCalmChange l) changes
    → All P l
    → All P (set_active changes l)
All-set_active P changes [] f idle calm all = tt
All-set_active P changes (m ∷ l) f idle calm all = (
  f m (activity m.id m.active changes)
      (activity-idle m.id (is_some m.match_result) m.active changes (idle m all.0)
        (All-map (IsCalmChange (m ∷ l)) (λ c h. ground (arith, h)) changes calm))
      all.0,
  All-set_active P changes l f idle
      (All-map (IsCalmChange (m ∷ l)) (λ c h. ground (arith, h)) changes calm) all.1,
)

-- ===== src/Catalog.antt =====
-- catalog/song-roller.ts: the songs drawn for a match, one for each level asked for.
-- The songs that may be drawn are the answer of the query `rollable`, a parameter. `Math.random` is a
-- parameter too: for the number of the draw and the number of the candidates it gives the index drawn.
-- A numeral is read exactly; the code reads a number from 2 ^ 53 on rounded.
pub mod Drawn
use tournament_hub.Common.{
  ℕ, zero, suc, ◌+◌, ◌-◌, ◌*◌, Bool, true, false, not, ◌&&◌, List, [], ◌∷◌, ◌++◌, Option, none,
  some, leb, ◌==◌, if◌then◌else◌, or_else, any, filter, get_elem?, length,
}

pub record Song : Type 0 where
  pub id : ℕ
  pub difficulty : ℕ

pub record SongRollSlot : Type 0 where
  pub level : ℕ
  pub song : Option Song

abbrev pub is_digit : ℕ → Bool
is_digit c = leb 48 c && leb c 57

-- The parts between the runs of other characters, each read as a number; `read` is the part so far.
unfoldable pub levels_from : Option ℕ → List ℕ → List ℕ
levels_from none [] = []
levels_from (some n) [] = n ∷ []
levels_from none (c ∷ rest) =
    let within = levels_from (some (c - 48)) rest in
    let between = levels_from none rest in if is_digit c then within else between
levels_from (some n) (c ∷ rest) =
    let within = levels_from (some (n * 10 + (c - 48))) rest in
    let between = levels_from none rest in if is_digit c then within else n ∷ between

unfoldable pub parse_levels : List ℕ → List ℕ
unfolding levels_from
parse_levels text = levels_from none text

abbrev pub is_candidate : ℕ → List ℕ → Song → Bool
is_candidate level taken song = (song.difficulty == level) && not (any (◌==◌ song.id) taken)

-- `if (song) taken.add(song.id)`
abbrev pub taken_after : List ℕ → Option Song → List ℕ
taken_after taken none = taken
taken_after taken (some s) = s.id ∷ taken

module _ (index : ℕ → ℕ → ℕ) where
  -- `anyOf`
  abbrev pub any_of : ℕ → List Song → Option Song
  any_of draw candidates = get_elem? candidates (index draw (length candidates))

  -- The loop over the levels, with the songs taken and the number of the draw.
  unfoldable pub roll_from : ℕ → List Song → List ℕ → List ℕ → List SongRollSlot
  roll_from draw available taken [] = []
  roll_from draw available taken (level ∷ rest) =
      let song = any_of draw (filter (is_candidate level taken) available) in
      record { level = level; song = song }
      ∷ roll_from (suc draw) available (taken_after taken song) rest

  unfoldable pub roll : List Song → Option (List ℕ) → List ℕ → List SongRollSlot
  unfolding roll_from
  roll available exclude_song_ids levels =
      roll_from 0 available (or_else exclude_song_ids []) levels

-- ===== src/Common/Text.antt =====
-- Strings as lists of UTF-16 code units, and `String.prototype.trim` on them.
use Prim.Native.Nat.{ℕ}
use mathlib.Core.Bool.{Bool, ◌&&◌, ◌||◌}
use mathlib.Core.List.{List, [], ◌∷◌}
use tournament_hub.Common.Tests.{leb, ◌==◌, if◌then◌else◌}

-- `String.prototype.trim`: white space and line terminators go, at both ends.
abbrev pub is_space : ℕ → Bool
is_space c =
    (leb 9 c && leb c 13)
    || (c == 32)
    || (c == 160)
    || (c == 5760)
    || (leb 8192 c && leb c 8202)
    || (c == 8232)
    || (c == 8233)
    || (c == 8239)
    || (c == 8287)
    || (c == 12288)
    || (c == 65279)

unfoldable pub trim_end : List ℕ → List ℕ
trim_end [] = []
trim_end (c ∷ rest) =
    let kept = trim_end rest in
    elim kept [ [] ↦ if is_space c then [] else c ∷ [] | d ∷ more ↦ c ∷ d ∷ more ]

unfoldable pub trim_start : List ℕ → List ℕ
trim_start [] = []
trim_start (c ∷ rest) = if is_space c then trim_start rest else c ∷ rest

unfoldable pub trim : List ℕ → List ℕ
unfolding trim_start trim_end
trim s = trim_start (trim_end s)

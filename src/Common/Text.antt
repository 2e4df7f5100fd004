-- ===== src/Common/Text.antt =====
-- Texts by their characters, as Python's slices count them.
use Prim.Native.Nat.{ℕ, zero, suc, ◌≤◌}
use Prim.Native.String.{String, [], ◌∷◌, count, compare}
use Prim.Native.String.count
use native.Mathlib.Omega.{arith}
use mathlib.Core.Path.{◌≡◌, refl}
use text.Mathlib.TextEquality.{eq_iff}
use text.Mathlib.Text.{◌==◌, is_le, find?}
use mathlib.Core.Bool.{Bool, true, false, not}
use mathlib.Core.Option.{Option, none, some}

-- `text[:n]`
abbrev pub truncate : ℕ → String → String
truncate zero s = []
truncate (suc n) [] = []
truncate (suc n) (c ∷ s) = c ∷ truncate n s

pub count-truncate : (n : ℕ) (s : String) → count (truncate n s) ≤ n
count-truncate zero s = rw count.nil (omega arith)
count-truncate (suc n) [] = rw count.nil (omega arith)
count-truncate (suc n) (c ∷ s) = let ih = count-truncate n s in rw count.cons (omega arith)

-- `a <= b` on texts, by the numbers of the characters
abbrev pub str_leb : String → String → Bool
str_leb s t = is_le (compare s t)

-- `part in text`
abbrev pub contains : String → String → Bool
contains text part = not (is_nothing (find? text part))
  where
    is_nothing : Option ℕ → Bool
    is_nothing none = true
    is_nothing (some n) = false

pub str_eq_refl : (s : String) → (s == s) ≡ true
str_eq_refl s = (eq_iff s s).1 refl

-- ===== src/Common/Sets.antt =====
-- Go's `map[string]struct{}`: a list of distinct strings, read by membership.
use Prim.Native.String.{String}
use mathlib.Core.Path.{◌≡◌, refl}
use mathlib.Core.Bool.{Bool, false, ◌&&◌, ◌||◌}
use mathlib.Core.List.{List, [], ◌∷◌}
use native.Mathlib.Omega.{arith}
use text.Mathlib.Text.{◌==◌}
use text.Mathlib.TextEquality.{eq_iff}
use noe.Common.Tests.{if◌then◌else◌}
use noe.Common.Lists.{keep, is_empty}
use text.Mathlib.TextPositions.{eq_refl}

-- slices.Contains, and `_, ok := set[a]`
unfoldable pub contains : List String → String → Bool
contains [] a = false
contains (x ∷ xs) a = x == a || contains xs a

-- set[a] = struct{}{}
unfoldable pub add : String → List String → List String
add a s = if contains s a then s else a ∷ s

-- No string stands twice.
abbrev pub IsDistinct : List String → Type 0
IsDistinct [] = Unit
IsDistinct (x ∷ xs) = (contains xs x ≡ false) × IsDistinct xs

-- Two sets with the same members.
abbrev pub SameMembers : List String → List String → Type 0
SameMembers s t = (a : String) → contains s a ≡ contains t a

pub contains-add :
    (a b : String) (s : List String) → contains (add a s) b ≡ (a == b || contains s b)
unfolding contains add
contains-add a b s = ground (arith, eq_iff a b)

pub add-IsDistinct : (a : String) (s : List String) → IsDistinct s → IsDistinct (add a s)
unfolding add
add-IsDistinct a s d = ground arith

pub contains-keep :
    (p : String → Bool) (s : List String) (a : String)
    → contains (keep p s) a ≡ (contains s a && p a)
unfolding contains
contains-keep p [] a = refl
contains-keep p (x ∷ xs) a = ground (arith, eq_iff x a, contains-keep p xs a)

pub keep-IsDistinct : (p : String → Bool) (s : List String) → IsDistinct s → IsDistinct (keep p s)
keep-IsDistinct p [] d = tt
keep-IsDistinct p (x ∷ xs) d = ground (arith, contains-keep p xs x, keep-IsDistinct p xs)

pub is_empty_ext : (s t : List String) → SameMembers s t → is_empty s ≡ is_empty t
unfolding contains
is_empty_ext [] [] same = refl
is_empty_ext [] (y ∷ ys) same = ground (arith, same y, eq_refl y)
is_empty_ext (x ∷ xs) [] same = ground (arith, same x, eq_refl x)
is_empty_ext (x ∷ xs) (y ∷ ys) same = refl

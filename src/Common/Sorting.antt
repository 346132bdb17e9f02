-- ===== src/Common/Sorting.antt =====
-- slices.Sort on strings, and why the sorted keys of a set do not depend on its iteration order.
use Prim.Native.String.{String}
use mathlib.Core.Path.{subst, ap₂, sym, ◌≡◌, refl, ◌∙◌}
use mathlib.Core.Logic.{inl, inr}
use mathlib.Core.Bool.{true, false, ◌||◌}
use text.Mathlib.TextPositions.{eq_refl}
use mathlib.Core.List.{List, [], ◌∷◌}
use native.Mathlib.Omega.{arith}
use text.Mathlib.Text.{◌==◌}
use text.Mathlib.TextEquality.{eq_iff}
use noe.Common.Tests.{if◌then◌else◌, Bool-cases}
use noe.Common.Strings.{str_lt, str_lt_irrefl, str_lt_trans, str_lt_connex}
use noe.Common.Sets.{contains, IsDistinct, SameMembers}

-- One step of the sort: `x` before the first string that is not smaller.
unfoldable pub place : String → List String → List String
place x [] = x ∷ []
place x (y ∷ ys) = if str_lt y x then y ∷ place x ys else x ∷ y ∷ ys

-- The result of slices.Sort.
unfoldable pub sort : List String → List String
sort [] = []
sort (x ∷ xs) = place x (sort xs)

-- Every string of the list is above `x`.
abbrev pub IsAbove : String → List String → Type 0
IsAbove x [] = Unit
IsAbove x (y ∷ ys) = (str_lt x y ≡ true) × IsAbove x ys

-- Strictly increasing.
abbrev pub IsIncreasing : List String → Type 0
IsIncreasing [] = Unit
IsIncreasing (x ∷ xs) = IsAbove x xs × IsIncreasing xs

pub contains-place :
    (x a : String) (xs : List String) → contains (place x xs) a ≡ (x == a || contains xs a)
unfolding contains place
contains-place x a [] = refl
contains-place x a (y ∷ ys) = ground (arith, contains-place x a ys)

pub contains-sort : (a : String) (xs : List String) → contains (sort xs) a ≡ contains xs a
unfolding contains sort
contains-sort a [] = refl
contains-sort a (x ∷ xs) = ground (arith, contains-place x a (sort xs), contains-sort a xs)

IsAbove-trans : (x y : String) (ys : List String) → str_lt x y ≡ true → IsAbove y ys → IsAbove x ys
IsAbove-trans x y [] h k = tt
IsAbove-trans x y (z ∷ zs) h k = (str_lt_trans x y z h k.0, IsAbove-trans x y zs h k.1)

IsAbove-place :
    (x y : String) (ys : List String) → str_lt x y ≡ true → IsAbove x ys → IsAbove x (place y ys)
unfolding place
IsAbove-place x y [] h k = (h, tt)
IsAbove-place x y (z ∷ zs) h k = ground (arith, IsAbove-place x y zs h k.1)

not-contains_of_IsAbove : (x : String) (ys : List String) → IsAbove x ys → contains ys x ≡ false
unfolding contains
not-contains_of_IsAbove x [] h = refl
not-contains_of_IsAbove x (y ∷ ys) h =
    ground (arith, eq_iff y x, str_lt_irrefl x, not-contains_of_IsAbove x ys h.1)

place-IsIncreasing :
    (x : String) (ys : List String)
    → contains ys x ≡ false
    → IsIncreasing ys
    → IsIncreasing (place x ys)
unfolding contains place
place-IsIncreasing x [] n d = (tt, tt)
place-IsIncreasing x (y ∷ ys) n d = elim (Bool-cases (str_lt y x)) [
  | inl lt ↦ rw lt (IsAbove-place y x ys lt d.0, place-IsIncreasing x ys (ground arith) d.1)
  | inr ge ↦ let lt : str_lt x y ≡ true = above ge in rw ge ((lt, IsAbove-trans x y ys lt d.0), d)
]
  where
    above : str_lt y x ≡ false → str_lt x y ≡ true
    above ge = elim (Bool-cases (str_lt x y)) [
      | inl lt ↦ lt
      | inr ge' ↦ ground (arith, str_lt_connex x y ge' ge, eq_iff y x)
    ]

pub sort-IsIncreasing : (xs : List String) → IsDistinct xs → IsIncreasing (sort xs)
unfolding sort
sort-IsIncreasing [] d = tt
sort-IsIncreasing (x ∷ xs) d =
    place-IsIncreasing x (sort xs) (contains-sort x xs ∙ d.0) (sort-IsIncreasing xs d.1)

-- A member of a list above `x` is above `x`.
lt_of_contains :
    (x a : String) (ys : List String) → IsAbove x ys → contains ys a ≡ true → str_lt x a ≡ true
unfolding contains
lt_of_contains x a [] h c = cc
lt_of_contains x a (y ∷ ys) h c = elim (Bool-cases (y == a)) [
  | inl e ↦ subst (λ z. str_lt x z ≡ true) ((eq_iff y a).0 e) h.0
  | inr ne ↦ lt_of_contains x a ys h.1 (ground arith)
]

-- Two members of increasing lists, each of which is the least of its own: they are equal.
heads-eq :
    (x y : String) (xs ys : List String)
    → IsAbove x xs
    → IsAbove y ys
    → SameMembers (x ∷ xs) (y ∷ ys)
    → x ≡ y
unfolding contains
heads-eq x y xs ys h k same = elim (Bool-cases (x == y)) [
  | inl e ↦ (eq_iff x y).0 e
  | inr ne ↦ ground (
    arith,
    same x,
    same y,
    eq_iff x y,
    eq_iff y x,
    eq_refl x,
    eq_refl y,
    lt_of_contains x y xs h,
    lt_of_contains y x ys k,
    str_lt_trans x y x,
    str_lt_irrefl x,
  )
]

tails-SameMembers :
    (x : String) (xs ys : List String)
    → IsAbove x xs
    → IsAbove x ys
    → SameMembers (x ∷ xs) (x ∷ ys)
    → SameMembers xs ys
unfolding contains
tails-SameMembers x xs ys h k same a =
    ground
      (arith, same a, eq_iff x a, not-contains_of_IsAbove x xs h, not-contains_of_IsAbove x ys k)

-- An increasing list is determined by its members.
pub IsIncreasing-ext :
    (xs ys : List String) → IsIncreasing xs → IsIncreasing ys → SameMembers xs ys → xs ≡ ys
unfolding contains
IsIncreasing-ext [] [] h k same = refl
IsIncreasing-ext [] (y ∷ ys) h k same = ground (arith, same y, eq_refl y)
IsIncreasing-ext (x ∷ xs) [] h k same = ground (arith, same x, eq_refl x)
IsIncreasing-ext (x ∷ xs) (y ∷ ys) h k same =
    let e : x ≡ y = heads-eq x y xs ys h.0 k.0 same in
    let k' : IsAbove x ys = subst (λ z. IsAbove z ys) (sym e) k.0 in
    let same' : SameMembers (x ∷ xs) (x ∷ ys) =
      subst (λ z. SameMembers (x ∷ xs) (z ∷ ys)) (sym e) same in
    ap₂ ◌∷◌ e (IsIncreasing-ext xs ys h.1 k.1 (tails-SameMembers x xs ys h.0 k' same'))

-- The sorted keys of a set depend on its members alone.
pub sort_ext : (s t : List String) → IsDistinct s → IsDistinct t → SameMembers s t → sort s ≡ sort t
sort_ext s t d e same =
    IsIncreasing-ext (sort s) (sort t) (sort-IsIncreasing s d) (sort-IsIncreasing t e)
      (λ a. contains-sort a s ∙ same a ∙ sym (contains-sort a t))

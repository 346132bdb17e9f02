-- ===== src/Common/Strings/Parts.antt =====
-- strings.Split with a separator of one ASCII character, given by its code, and strings.HasPrefix.
use Prim.Native.Char.{Char, code}
use Prim.Native.String
use Prim.Native.String.{String, [], ◌∷◌}
use mathlib.Core.Path.{◌≡◌, refl}
use mathlib.Core.Bool.{Bool, true, false, ◌&&◌, not}
use mathlib.Core.List.{List}
use mathlib.Core.Option.{Option, none, some}
use text.Mathlib.TextLemmas.{nil-append, cons-append}
use native.Mathlib.Omega.{arith}
use Prim.Native.Nat.{ℕ}
use noe.Common.Tests.{if◌then◌else◌, nat_eq}

-- A character before the first part
prepend : Char → List String → List String
prepend c List.[] = List.◌∷◌ (c ∷ []) List.[]
prepend c (List.◌∷◌ part parts) = List.◌∷◌ (c ∷ part) parts

-- strings.Split
unfoldable pub split : ℕ → String → List String
unfolding prepend
split separator [] = List.◌∷◌ [] List.[]
split separator (c ∷ s) =
    let parts = split separator s in
    if nat_eq (code c) separator then List.◌∷◌ [] parts else prepend c parts

-- strings.HasPrefix
unfoldable pub has_prefix : String → String → Bool
has_prefix s [] = true
has_prefix [] (d ∷ p) = false
has_prefix (c ∷ s) (d ∷ p) = let rest = has_prefix s p in nat_eq (code c) (code d) && rest

-- The separator does not stand in the text.
unfoldable pub lacks : ℕ → String → Bool
lacks separator [] = true
lacks separator (c ∷ s) = let rest = lacks separator s in not (nat_eq (code c) separator) && rest

-- A text without the separator is its own only part.
pub split-lacks :
    (separator : ℕ) (s : String) → lacks separator s ≡ true → split separator s ≡ List.◌∷◌ s List.[]
unfolding split lacks
split-lacks separator [] h = refl
split-lacks separator (c ∷ s) h = ground (arith, split-lacks separator s)

-- What stands before the first separator is the first part.
pub split-append :
    (separator : ℕ) (c : Char) (s t : String)
    → lacks separator s ≡ true
    → nat_eq (code c) separator ≡ true
    → split separator (String.◌++◌ s (c ∷ t)) ≡ List.◌∷◌ s (split separator t)
unfolding split lacks
split-append separator c [] t h k = rw (nil-append (c ∷ t)) (ground arith)
split-append separator c (d ∷ s) t h k =
    rw (cons-append d s (c ∷ t)) (ground (arith, split-append separator c s t))

-- The same with the separator as a text of its own.
pub split-append_one :
    (separator : ℕ) (c : Char) (s t : String)
    → lacks separator s ≡ true
    → nat_eq (code c) separator ≡ true
    → split separator (String.◌++◌ s (String.◌++◌ (c ∷ []) t)) ≡ List.◌∷◌ s (split separator t)
split-append_one separator c s t h k =
    rw (cons-append c [] t, nil-append t) (split-append separator c s t h k)

pub lacks-append :
    (separator : ℕ) (s t : String)
    → lacks separator (String.◌++◌ s t) ≡ (lacks separator s && lacks separator t)
unfolding lacks
lacks-append separator [] t = rw (nil-append t) refl
lacks-append separator (c ∷ s) t =
    rw (cons-append c s t) (ground (arith, lacks-append separator s t))

-- strings.SplitN with 2: what stands before the first separator, and what stands behind it
unfoldable pub cut : ℕ → String → String × Option String
cut separator [] = ([], none)
cut separator (c ∷ s) =
    let found = cut separator s in
    if nat_eq (code c) separator then ([], some s) else (c ∷ found.0, found.1)

pub cut-lacks :
    (separator : ℕ) (s : String) → lacks separator s ≡ true → cut separator s ≡ (s, none)
unfolding cut lacks
cut-lacks separator [] h = refl
cut-lacks separator (c ∷ s) h = ground (arith, cut-lacks separator s)

cut-append :
    (separator : ℕ) (c : Char) (s t : String)
    → lacks separator s ≡ true
    → nat_eq (code c) separator ≡ true
    → cut separator (String.◌++◌ s (c ∷ t)) ≡ (s, some t)
unfolding cut lacks
cut-append separator c [] t h k = rw (nil-append (c ∷ t)) (ground arith)
cut-append separator c (d ∷ s) t h k =
    rw (cons-append d s (c ∷ t)) (ground (arith, cut-append separator c s t))

-- A text is cut at a separator that stands between two texts.
pub cut-append_one :
    (separator : ℕ) (c : Char) (s t : String)
    → lacks separator s ≡ true
    → nat_eq (code c) separator ≡ true
    → cut separator (String.◌++◌ s (String.◌++◌ (c ∷ []) t)) ≡ (s, some t)
cut-append_one separator c s t h k =
    rw (cons-append c [] t, nil-append t) (cut-append separator c s t h k)

-- strings.TrimPrefix
unfoldable pub trim_prefix : String → String → String
trim_prefix s p = if has_prefix s p then after s p else s
  where
    after : String → String → String
    after s [] = s
    after [] (d ∷ p) = []
    after (c ∷ s) (d ∷ p) = after s p

-- The test holds for the code of each character.
unfoldable pub every : (ℕ → Bool) → String → Bool
every p [] = true
every p (c ∷ s) = let rest = every p s in p (code c) && rest

pub every-append :
    (p : ℕ → Bool) (s t : String) → every p (String.◌++◌ s t) ≡ (every p s && every p t)
unfolding every
every-append p [] t = rw (nil-append t) refl
every-append p (c ∷ s) t = rw (cons-append c s t) (ground (arith, every-append p s t))

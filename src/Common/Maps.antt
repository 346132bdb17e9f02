-- ===== src/Common/Maps.antt =====
-- Go maps with string keys, as association lists. Where the source iterates over a map, the order
-- of the list stands for the order of the iteration, which Go leaves open.
use Prim.Native.String.{String}
use mathlib.Core.Path.{◌≡◌, refl}
use mathlib.Core.Option.{Option, none, some}
use mathlib.Core.List.{List, [], ◌∷◌}
use native.Mathlib.Omega.{arith}
use text.Mathlib.Text.{◌==◌}
use text.Mathlib.TextEquality.{eq_iff}
use noe.Common.Tests.{if◌then◌else◌}

abbrev pub Map {ℓ} : Type ℓ → Type ℓ
Map V = List (String × V)

module _ {ℓ} {V : Type ℓ} where
  -- v, ok := m[key]
  unfoldable pub lookup : String → Map V → Option V
  lookup key [] = none
  lookup key ((k, v) ∷ rest) = if k == key then some v else lookup key rest

  -- m[key] = new
  unfoldable pub insert : String → V → Map V → Map V
  insert key new [] = (key, new) ∷ []
  insert key new ((k, old) ∷ rest) =
      let inserted = insert key new rest in
      if k == key then (key, new) ∷ rest else (k, old) ∷ inserted

  -- delete(m, key)
  unfoldable pub delete : String → Map V → Map V
  delete key [] = []
  delete key ((k, v) ∷ rest) =
      let others = delete key rest in if k == key then others else (k, v) ∷ others

  -- What is read after a write: the new value at its key, and the old ones elsewhere.
  pub lookup-insert :
      (key asked : String) (new : V) (m : Map V)
      → lookup asked (insert key new m) ≡ (if key == asked then some new else lookup asked m)
  unfolding lookup insert
  lookup-insert key asked new [] = refl
  lookup-insert key asked new ((k, old) ∷ rest) =
      ground
        (arith, lookup-insert key asked new rest, eq_iff k asked, eq_iff key asked, eq_iff k key)

  pub lookup-delete :
      (key asked : String) (m : Map V)
      → lookup asked (delete key m) ≡ (if key == asked then none else lookup asked m)
  unfolding lookup delete
  lookup-delete key asked [] = ground arith
  lookup-delete key asked ((k, v) ∷ rest) =
      ground (arith, lookup-delete key asked rest, eq_iff k asked, eq_iff key asked, eq_iff k key)

pub ruleset map_laws = (lookup-insert, lookup-delete)

-- The key has no entry.
abbrev pub IsMissing {ℓ} : {V : Type ℓ} → Option V → Type 0
IsMissing none = Unit
IsMissing (some v) = ⊥

-- No key stands twice.
abbrev pub HasDistinctKeys {ℓ} : {V : Type ℓ} → Map V → Type 0
HasDistinctKeys [] = Unit
HasDistinctKeys ((k, v) ∷ m) = IsMissing (lookup k m) × HasDistinctKeys m

module _ {ℓ} {V : Type ℓ} where
  pub insert-HasDistinctKeys :
      (k : String) (v : V) (m : Map V) → HasDistinctKeys m → HasDistinctKeys (insert k v m)
  unfolding lookup insert
  insert-HasDistinctKeys k v [] d = (tt, tt)
  insert-HasDistinctKeys k v ((j, w) ∷ m) d =
      ground (arith, eq_iff j k, eq_iff k j, lookup-insert k j v m, insert-HasDistinctKeys k v m)

  pub delete-HasDistinctKeys :
      (k : String) (m : Map V) → HasDistinctKeys m → HasDistinctKeys (delete k m)
  unfolding lookup delete
  delete-HasDistinctKeys k [] d = tt
  delete-HasDistinctKeys k ((j, w) ∷ m) d =
      ground (arith, eq_iff j k, eq_iff k j, lookup-delete k j m, delete-HasDistinctKeys k m)

  pub delete-missing : (k : String) (m : Map V) → IsMissing (lookup k m) → delete k m ≡ m
  unfolding lookup delete
  delete-missing k [] e = refl
  delete-missing k ((j, w) ∷ m) e = ground (arith, delete-missing k m)

-- ===== src/Logging/Fields.antt =====
-- Which value a field has after maps of fields are merged.
use noe.Common.{
  String, Option, none, some, [], ◌∷◌, ◌≡◌, refl, subst, arith, ◌==◌, eq_iff, inl, inr, Bool-cases,
}
use noe.Common.Maps.{
  Map, lookup, insert, lookup-insert, HasDistinctKeys, IsMissing, insert-HasDistinctKeys,
}
use noe.Logging.{
  merge_into, merge_list, merge_fields, get_log_fields_context, add_log_fields_to_context, fire,
}

-- The new value, or else the old one
abbrev pub or_else {ℓ} : {V : Type ℓ} → Option V → Option V → Option V
or_else none old = old
or_else (some v) old = some v

or_else_missing {ℓ} :
    {V : Type ℓ} (o : Option V) (v : V) → IsMissing o → or_else o (some v) ≡ some v
or_else_missing none v m = refl
or_else_missing (some w) v m = ground arith

module _ {ℓ} {V : Type ℓ} where
  pub lookup-merge_into :
      (key : String) (fields new : Map V)
      → HasDistinctKeys new
      → lookup key (merge_into fields new) ≡ or_else (lookup key new) (lookup key fields)
  unfolding merge_into lookup
  lookup-merge_into key fields [] d = refl
  lookup-merge_into key fields ((k, v) ∷ new) (fresh, d) =
      rw (lookup-merge_into key (insert k v fields) new d) (elim (Bool-cases (k == key)) [
        | inl same ↦
            rw (lookup-insert k key v fields, same)
              (or_else_missing (lookup key new) v
                (subst (λ j. IsMissing (lookup j new)) ((eq_iff k key).0 same) fresh))
        | inr different ↦ rw (lookup-insert k key v fields, different) refl
      ])

  pub merge_into-HasDistinctKeys :
      (fields new : Map V) → HasDistinctKeys fields → HasDistinctKeys (merge_into fields new)
  unfolding merge_into
  merge_into-HasDistinctKeys fields [] d = d
  merge_into-HasDistinctKeys fields ((k, v) ∷ new) d =
      merge_into-HasDistinctKeys (insert k v fields) new (insert-HasDistinctKeys k v fields d)

  or_else_lists :
      (a b c d : Option V)
      → or_else a (or_else (or_else b (or_else (or_else c (or_else d none)) none)) none)
        ≡ or_else a (or_else b (or_else c d))
  or_else_lists (some x) b c d = refl
  or_else_lists none (some x) c d = refl
  or_else_lists none none (some x) d = refl
  or_else_lists none none none (some x) = refl
  or_else_lists none none none none = refl

  -- A message with its own fields, in a context to which fields were added twice, has for each key
  -- its own value, or else the one that was added last, or else the one that was added before.
  pub lookup-fire :
      (key : String) (ctx : Option (Map V)) (outer inner own : Map V)
      → HasDistinctKeys outer
      → HasDistinctKeys inner
      → HasDistinctKeys own
      → HasDistinctKeys (get_log_fields_context ctx)
      → lookup key
          (fire (add_log_fields_to_context (add_log_fields_to_context ctx outer) inner) own)
        ≡ or_else (lookup key own) (
            or_else
              (lookup key inner)
              (or_else (lookup key outer) (lookup key (get_log_fields_context ctx))))
  unfolding fire add_log_fields_to_context merge_fields merge_list lookup
  lookup-fire key ctx outer inner own od id wd cd =
      let base = get_log_fields_context ctx in
      let base_d = merge_into-HasDistinctKeys [] base tt in
      let once_d = merge_into-HasDistinctKeys (merge_into [] base) outer base_d in
      let twice_d = merge_into-HasDistinctKeys [] (merge_into (merge_into [] base) outer) tt in
      let thrice_d =
        merge_into-HasDistinctKeys (merge_into [] (merge_into (merge_into [] base) outer)) inner
          twice_d in
      rw
        (
          lookup-merge_into key
              (merge_into []
                (merge_into (merge_into [] (merge_into (merge_into [] base) outer)) inner))
              own wd,
          lookup-merge_into key []
              (merge_into (merge_into [] (merge_into (merge_into [] base) outer)) inner) thrice_d,
          lookup-merge_into key (merge_into [] (merge_into (merge_into [] base) outer)) inner id,
          lookup-merge_into key [] (merge_into (merge_into [] base) outer) once_d,
          lookup-merge_into key (merge_into [] base) outer od,
          lookup-merge_into key [] base cd,
        )
        (or_else_lists (lookup key own) (lookup key inner) (lookup key outer) (lookup key base))

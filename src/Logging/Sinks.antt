-- ===== src/Logging/Sinks.antt =====
-- pkg/log/logr.go: the fields of a sink that takes over those of a context.
use noe.Common.{String, Option, none, some, [], ◌∷◌, ◌≡◌, refl, ◌==◌, false}
use noe.Common.Maps.{Map, lookup, insert, HasDistinctKeys}
use noe.Logging.{
  Value, LogrusLogger, Levels, merge_into, merge_list, merge_fields, get_log_fields_context, key_of,
  pair_fields, logrus_with_values, with_values, listed_fields, contextualize_logr,
}
use noe.Logging.Fields.{or_else, lookup-merge_into, merge_into-HasDistinctKeys}

-- No key is empty: logrusWithValues takes an empty one for the gap between two pairs.
abbrev pub HasNamedKeys {ℓ} : {V : Type ℓ} → Map V → Type 0
HasNamedKeys [] = Unit
HasNamedKeys ((k, v) ∷ m) = ((k == "") ≡ false) × HasNamedKeys m

or_else_twice {ℓ} :
    {V : Type ℓ} (a b : Option V) → or_else (or_else a none) (or_else b none) ≡ or_else a b
or_else_twice none none = refl
or_else_twice none (some w) = refl
or_else_twice (some v) b = refl

module _ {A : Type 0} (levels : Levels) (sprint : Value A → String) where
  pair_fields-listed_fields :
      (fields m : Map (Value A))
      → HasNamedKeys m
      → pair_fields levels sprint "" fields (listed_fields levels sprint m) ≡ merge_into fields m
  unfolding pair_fields listed_fields merge_into key_of
  pair_fields-listed_fields fields [] named = refl
  pair_fields-listed_fields fields ((k, v) ∷ m) (named_key, named) =
      rw named_key (pair_fields-listed_fields (insert k v fields) m named)

  -- The sink has for each key the value of the context, or else the one that it had.
  pub lookup-contextualize_logr :
      (key : String) (l : LogrusLogger A) (ctx : Option (Map (Value A)))
      → HasDistinctKeys l.fields
      → HasDistinctKeys (get_log_fields_context ctx)
      → HasNamedKeys (get_log_fields_context ctx)
      → lookup key (contextualize_logr levels sprint l ctx).fields
        ≡ or_else (lookup key (get_log_fields_context ctx)) (lookup key l.fields)
  unfolding contextualize_logr with_values logrus_with_values merge_fields merge_list lookup
  lookup-contextualize_logr key l ctx ld cd named =
      let base = get_log_fields_context ctx in
      rw
        (
          pair_fields-listed_fields [] base named,
          lookup-merge_into key (merge_into [] l.fields) (merge_into [] base)
              (merge_into-HasDistinctKeys [] base tt),
          lookup-merge_into key [] base cd,
          lookup-merge_into key [] l.fields ld,
        )
        (or_else_twice (lookup key base) (lookup key l.fields))

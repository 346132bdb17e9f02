-- ===== src/Logging/Examples.antt =====
-- pkg/log on concrete fields.
use noe.Common.{String, none, [], ◌∷◌, ◌≡◌}
use noe.Common.Maps.{Map, lookup, HasDistinctKeys}
use noe.Logging.{get_log_fields_context, add_log_fields_to_context, fire}
use noe.Logging.Fields.{or_else, lookup-fire}

abbrev outer : Map String
outer = ("image", "app") ∷ ("pod", "a") ∷ []

abbrev inner : Map String
inner = ("pod", "b") ∷ []

abbrev own : Map String
own = ("error", "e") ∷ []

outer_distinct : HasDistinctKeys outer
unfolding lookup
outer_distinct = (tt, (tt, tt))

inner_distinct : HasDistinctKeys inner
unfolding lookup
inner_distinct = (tt, tt)

own_distinct : HasDistinctKeys own
unfolding lookup
own_distinct = (tt, tt)

lookup-fire_example :
    lookup "pod" (fire (add_log_fields_to_context (add_log_fields_to_context none outer) inner) own)
    ≡ or_else (lookup "pod" own) (
        or_else
          (lookup "pod" inner)
          (or_else (lookup "pod" outer) (lookup "pod" (get_log_fields_context {V = String} none))))
unfolding get_log_fields_context
lookup-fire_example =
    lookup-fire "pod" none outer inner own outer_distinct inner_distinct own_distinct tt

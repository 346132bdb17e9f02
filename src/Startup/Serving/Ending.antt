-- ===== src/Startup/Serving/Ending.antt =====
-- How main ends: the registration of the collectors never panics.
use Prim.Native.Char.{code}
use Prim.Native.String.{[], ◌∷◌}
use mathlib.Core.Bool.{or-false}
use noe.Common.{
  leb, nat_eq, ℕ, Bool, true, false, ◌&&◌, ◌||◌, not, String, some, List, [], ◌∷◌, ◌++◌, ◌≡◌, refl,
  sym, ◌∙◌, ap, subst, arith, ◌==◌, eq_iff, any, all, Bool-cases, inl, inr, if◌then◌else◌, and_elim,
}
use noe.Common.Sets.{contains}
use noe.Common.Strings.Parts.{has_prefix, every}
use noe.Hook.Events.{◌<>◌}
use noe.Metrics.{
  Collector, handler_metrics, controller_metrics, registry_metrics, cache_metrics,
  round_tripper_metrics, instrumented_metrics,
}
use noe.Common.Maps.{insert}
use noe.Http.Monitored.{label_names, registry_labeller, standard_handler_labeller}
use noe.Startup.{Flags, refuses}
use noe.Startup.Serving.{
  ManagerFlags, Call, new_manager, add_healthz_check, add_readyz_check, setup_pod_controller,
  start_manager, Action, calls, must_register, serves, returned, exited, actions, Registerer,
  must_register_all, perform, main,
}

-- prometheus.BuildFQName
abbrev pub joined : Collector → String
joined c = c.namespace <> ("_" <> (c.subsystem <> ("_" <> c.name)))

abbrev pub full_name : {S : Type 0} → Registerer S → Collector → String
full_name reg c = reg.fq_name c.namespace c.subsystem c.name

abbrev within : ℕ → ℕ → ℕ → Bool
within low high n = leb low n && leb n high

-- A letter or an underscore
abbrev starts_name : ℕ → Bool
starts_name n = within b'a' b'z' n || within b'A' b'Z' n || nat_eq n b'_'

abbrev is_name_char : ℕ → Bool
is_name_char n = starts_name n || within b'0' b'9' n

-- Letters, digits and underscores, and no digit first
unfoldable pub is_name : String → Bool
is_name [] = false
is_name (c ∷ s) = starts_name (code c) && every is_name_char s

-- Such a name that prometheus does not reserve: those of two underscores, and those of histograms
-- and summaries
abbrev pub is_label : String → Bool
is_label l = is_name l && not (has_prefix l "__") && not (l == "le") && not (l == "quantile")

abbrev pub all_distinct : List String → Bool
all_distinct [] = true
all_distinct (l ∷ ls) = let rest = all_distinct ls in not (contains ls l) && rest

-- A collector that prometheus can describe: its name has three parts and is valid, and so are the
-- labels, of which none stands twice.
abbrev pub is_valid : Collector → Bool
is_valid c =
    not (c.namespace == "")
    && not (c.subsystem == "")
    && not (c.name == "")
    && is_name (joined c)
    && all is_label c.labels
    && all_distinct c.labels

-- What prometheus documents: the full name joins the parts, if none is empty, with underscores, and
-- a valid collector with a full name that is not registered yet is registered.
pub record Registers {S : Type 0} (reg : Registerer S) : Type 0 where
  pub joins : (c : Collector) → is_valid c ≡ true → full_name reg c ≡ joined c
  pub accepts :
      (c : Collector) (s : S)
      → is_valid c ≡ true
      → contains (reg.names s) (full_name reg c) ≡ false
      → (t : S) × ((reg.register c s ≡ some t) × (reg.names t ≡ full_name reg c ∷ reg.names s))

-- The collectors that the actions register
abbrev pub collected : List Action → List Collector
collected [] = []
collected (calls c ∷ rest) = collected rest
collected (must_register cs ∷ rest) = cs ++ collected rest
collected (serves path ∷ rest) = collected rest

-- The actions up to the first call that fails
abbrev pub until_failure : (Call → Bool) → List Action → List Action
until_failure fails [] = []
until_failure fails (calls c ∷ rest) =
    let more = until_failure fails rest in calls c ∷ (if fails c then [] else more)
until_failure fails (must_register cs ∷ rest) = must_register cs ∷ until_failure fails rest
until_failure fails (serves path ∷ rest) = serves path ∷ until_failure fails rest

-- A call that fails
abbrev pub is_failing : (Call → Bool) → Action → Bool
is_failing fails (calls c) = fails c
is_failing fails (must_register cs) = false
is_failing fails (serves path) = false

-- Each collector is valid, and none has a name that was seen or that another one has.
abbrev fresh : List String → List Collector → Bool
fresh seen [] = true
fresh seen (c ∷ cs) = (is_valid c && not (contains seen (joined c))) && fresh (joined c ∷ seen) cs

module _ {S : Type 0} (reg : Registerer S) (fails : Call → Bool) (laws : Registers reg) where
  registers-all :
      (cs more : List Collector) (s : S)
      → fresh (reg.names s) (cs ++ more) ≡ true
      → (t : S) × ((must_register_all reg fails cs s ≡ some t) × (fresh (reg.names t) more ≡ true))
  unfolding must_register_all
  registers-all [] more s h = (s, (refl, h))
  registers-all (c ∷ cs) more s h =
      let (usable, rest) = and_elim (is_valid c && not (contains (reg.names s) (joined c))) _ h in
      let (valid, new) = and_elim (is_valid c) (not (contains (reg.names s) (joined c))) usable in
      let unseen : contains (reg.names s) (joined c) ≡ false = ground arith in
      let (t, (accepted, names)) =
        laws.accepts c s valid
          (subst (λ x. contains (reg.names s) x ≡ false) (sym (laws.joins c valid)) unseen) in
      let seen : reg.names t ≡ joined c ∷ reg.names s =
        names ∙ ap (λ x. x ∷ reg.names s) (laws.joins c valid) in
      let (u, (done, left)) =
        registers-all cs more t (subst (λ ns. fresh ns (cs ++ more) ≡ true) (sym seen) rest) in
      (u, (rw (must_register_all, accepted) done, left))

  performs :
      (rest : List Action) (s : S)
      → fresh (reg.names s) (collected rest) ≡ true
      → perform reg fails rest s
        ≡ (until_failure fails rest, if any (is_failing fails) rest then exited 1 else returned)
  unfolding perform
  performs [] s h = refl
  performs (calls c ∷ rest) s h = elim (Bool-cases (fails c)) [
    | inl failing ↦ rw failing refl
    | inr fine ↦ rw (fine, performs rest s h) refl
  ]
  performs (must_register cs ∷ rest) s h =
      let (t, (done, left)) = registers-all cs (collected rest) s h in
      rw (perform, done) (ap (λ r. (must_register cs ∷ r.0, r.1)) (performs rest t left))
  performs (serves path ∷ rest) s h = rw (performs rest s h) refl

-- The names that the program uses begin with its own prefix.
abbrev pub is_foreign : String → Bool
is_foreign name = not (has_prefix name "noe_")

foreign_lacks :
    (names : List String) (name : String)
    → all is_foreign names ≡ true
    → is_foreign name ≡ false
    → contains names name ≡ false
unfolding contains
foreign_lacks [] name h own = refl
foreign_lacks (x ∷ names) name h own =
    let (first, rest) = and_elim (is_foreign x) (all is_foreign names) h in
    elim (Bool-cases (x == name)) [
      | inl same ↦
          let e = subst (λ y. is_foreign y ≡ true) ((eq_iff x name).0 same) first in ground arith
      | inr other ↦ rw other (foreign_lacks names name rest own)
    ]

contains-append :
    (xs ys : List String) (a : String) → contains (xs ++ ys) a ≡ (contains xs a || contains ys a)
unfolding contains
contains-append [] ys a = refl
contains-append (x ∷ xs) ys a = ground (arith, contains-append xs ys a)

fresh-foreign :
    (seen names : List String) (cs : List Collector)
    → all is_foreign names ≡ true
    → all (λ c. not (is_foreign (joined c))) cs ≡ true
    → fresh seen cs ≡ true
    → fresh (seen ++ names) cs ≡ true
fresh-foreign seen names [] h own f = refl
fresh-foreign seen names (c ∷ cs) h own f =
    let (usable, rest) = and_elim (is_valid c && not (contains seen (joined c))) _ f in
    let (valid, new) = and_elim (is_valid c) (not (contains seen (joined c))) usable in
    let (mine, others) =
      and_elim (not (is_foreign (joined c))) (all (λ d. not (is_foreign (joined d))) cs) own in
    rw
      (
        valid,
        contains-append seen names (joined c),
        foreign_lacks names (joined c) h (ground (arith, mine)),
        or-false (contains seen (joined c)),
        new,
        fresh-foreign (joined c ∷ seen) names cs h others rest,
      )
      refl

actions-fresh :
    (itoa : ℕ → String) (m : ManagerFlags)
    → (fresh [] (collected (actions itoa m)) ≡ true)
      × (all (λ c. not (is_foreign (joined c))) (collected (actions itoa m)) ≡ true)
unfolding actions contains has_prefix handler_metrics controller_metrics registry_metrics
    cache_metrics round_tripper_metrics instrumented_metrics is_name every label_names
    registry_labeller insert standard_handler_labeller
actions-fresh itoa m = (refl, refl)

-- Whatever the flags are and whichever calls of the manager fail, main does not panic, if no name
-- that is registered before begins with "noe_": it refuses the flags and exits with 1, or it does
-- everything up to the first call that fails, and exits with 1 if one does and else returns.
pub main_ends :
    {S : Type 0} (reg : Registerer S) (fails : Call → Bool) (itoa : ℕ → String) (f : Flags)
    (m : ManagerFlags) (s : S)
    → Registers reg
    → all is_foreign (reg.names s) ≡ true
    → main reg fails itoa f m s ≡ (
        if refuses f then ([], exited 1) else (
          until_failure fails (actions itoa m),
          if any (is_failing fails) (actions itoa m) then exited 1 else returned,
        ))
unfolding main
main_ends reg fails itoa f m s laws foreign =
    let (distinct, own) = actions-fresh itoa m in
    rw
      (performs reg fails laws (actions itoa m) s
        (fresh-foreign [] (reg.names s) (collected (actions itoa m)) foreign own distinct))
      refl

abbrev pub is_start : Action → Bool
is_start (calls (new_manager o)) = false
is_start (calls (add_healthz_check name)) = false
is_start (calls (add_readyz_check name)) = false
is_start (calls setup_pod_controller) = false
is_start (calls start_manager) = true
is_start (must_register cs) = false
is_start (serves path) = false

abbrev pub is_serving : Action → Bool
is_serving (calls c) = false
is_serving (must_register cs) = false
is_serving (serves path) = path == "/mutate"

abbrev pub is_setup : Action → Bool
is_setup (calls (new_manager o)) = false
is_setup (calls (add_healthz_check name)) = false
is_setup (calls (add_readyz_check name)) = false
is_setup (calls setup_pod_controller) = true
is_setup (calls start_manager) = false
is_setup (must_register cs) = false
is_setup (serves path) = false

start_last :
    (fails : Call → Bool) (itoa : ℕ → String) (m : ManagerFlags)
    → any is_start (until_failure fails (actions itoa m)) ≡ true
    → (any is_serving (until_failure fails (actions itoa m)) ≡ true)
      × ((any is_setup (until_failure fails (actions itoa m)) ≡ true)
          × (fails setup_pod_controller ≡ false))
unfolding actions
start_last fails itoa m h = (ground arith, (ground arith, ground arith))

-- If main starts the manager, it has also set up the pod controller, without an error, and serves the hook at
-- /mutate, whatever calls fail, if no name that is registered before main begins with "noe_".
pub main_serves_first :
    {S : Type 0} (reg : Registerer S) (fails : Call → Bool) (itoa : ℕ → String) (f : Flags)
    (m : ManagerFlags) (s : S)
    → Registers reg
    → all is_foreign (reg.names s) ≡ true
    → any is_start (main reg fails itoa f m s).0 ≡ true
    → (any is_serving (main reg fails itoa f m s).0 ≡ true)
      × ((any is_setup (main reg fails itoa f m s).0 ≡ true) × (fails setup_pod_controller ≡ false))
main_serves_first reg fails itoa f m s laws foreign =
    rw (main_ends reg fails itoa f m s laws foreign) (elim (Bool-cases (refuses f)) [
      | inl refused ↦ rw refused (λ h. ground arith)
      | inr accepted ↦ rw accepted (start_last fails itoa m)
    ])

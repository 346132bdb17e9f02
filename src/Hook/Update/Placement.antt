-- ===== src/Hook/Update/Placement.antt =====
-- Which nodes the scheduler may choose after updatePodSpec, for a pod that it constrains: one that
-- is not scheduled, selects no architecture itself and has a common architecture. No label of
-- matchNodeLabels is on the pod; Hook/Labels/Matching.antt treats those.
use noe.Common.{
  and_elim, Bool, true, false, ◌&&◌, ◌||◌, String, Option, none, some, List, [], ◌∷◌, ◌==◌, ◌≡◌,
  refl, sym, arith, eq_iff, eq_refl, any, all, is_empty, if◌then◌else◌, Bool-cases, Option-cases,
  inl, inr, ap, ◌∙◌,
}
use noe.Common.Maps.{Map, lookup}
use noe.Common.Sets.{contains}
use noe.Common.Sorting.{sort, contains-sort}
use noe.Kube.{Requirement, NodeSelector, PodSpec, Node}
use noe.Kube.Scheduling.{
  has_value, has_value_in, selector_holds, node_selector_holds, term_holds, admits,
}
use noe.Hook.{Handler, arch_key}
use noe.Hook.Architectures.{Arrival, common_architectures}
use noe.Hook.Architectures.Members.{
  arrival_offers, contains-common_architectures, first_image-common_architectures,
}
use noe.Hook.Secrets.{SecretReader}
use noe.Hook.Selection.{affinity_terms, entries, node_architecture_selection}
use noe.Hook.Labels.{Progress, in_term}
use noe.Hook.Labels.Placement.{
  required_selector, selector_holds-insert, affinity_holds-append_term, affinity_holds_of_none,
  affinity_holds_of_some, term_holds-in_term,
}
use noe.Hook.Labels.Matching.{carries, match_labels_none}
use noe.Hook.Update.{
  UpdateError, Preference, select_arch, select_affinity, finish, inject, decide, started,
  preference, update_pod_spec, resolve, update_unscheduled,
}

-- The architectures to which the pod is held: the preferred one if it is common.
abbrev pub target : Preference → List String → List String
target pref common = if contains common pref.arch && pref.defined then pref.arch ∷ [] else common

-- The node's architecture is among them.
abbrev pub runs_on : Node → List String → Bool
runs_on n archs = has_value_in (lookup arch_key n.labels) archs

-- A pod that updatePodSpec constrains, with the answers of the registry.
pub record Constrains (h : Handler) (labels : Map String) (spec : PodSpec) (arrivals : List Arrival)
    : Type 0 where
  pub unscheduled : spec.node_name ≡ ""
  pub unselected : node_architecture_selection spec ≡ none
  pub found : is_empty (common_architectures h arrivals).common ≡ false
  pub unlabelled : any (carries labels) h.match_node_labels ≡ false

has_value_in-sort :
    (o : Option String) (s : List String) → has_value_in o (sort s) ≡ has_value_in o s
unfolding has_value_in
has_value_in-sort none s = refl
has_value_in-sort (some a) s = contains-sort a s

some_member : (s : List String) → is_empty s ≡ false → (a : String) × (contains s a ≡ true)
unfolding contains
some_member [] e = cc
some_member (x ∷ xs) e = (x, rw eq_refl)

pub not-first_image :
    (h : Handler) (arrivals : List Arrival)
    → is_empty (common_architectures h arrivals).common ≡ false
    → (common_architectures h arrivals).first_image ≡ false
not-first_image h arrivals e =
    let (a, m) = some_member (common_architectures h arrivals).common e in
    ground (
      arith,
      contains-common_architectures h arrivals a,
      first_image-common_architectures h arrivals,
    )

no_arch_entry :
    (spec : PodSpec)
    → node_architecture_selection spec ≡ none
    → lookup arch_key (entries spec.node_selector) ≡ none
unfolding node_architecture_selection
no_arch_entry spec e = ground arith

has_value_in_one : (o : Option String) (v : String) → has_value_in o (v ∷ []) ≡ has_value o v
unfolding has_value_in has_value contains
has_value_in_one none v = refl
has_value_in_one (some w) v = ground (arith, eq_iff v w, eq_iff w v)

selector_holds-entries :
    (n : Node) (sel : Option (Map String))
    → selector_holds n (entries sel) ≡ node_selector_holds n sel
unfolding selector_holds node_selector_holds
selector_holds-entries n none = refl
selector_holds-entries n (some m) = refl

module _ (others : Requirement → Node → Bool) (n : Node) where
  admits-select_arch :
      (ns arch : String) (p : Progress)
      → lookup arch_key (entries p.spec.node_selector) ≡ none
      → admits others n (select_arch ns arch p).spec
        ≡ (admits others n p.spec && runs_on n (arch ∷ []))
  unfolding select_arch admits
  admits-select_arch ns arch p e = ground (
    arith,
    selector_holds-insert n (entries p.spec.node_selector) arch_key arch e,
    selector_holds-entries n p.spec.node_selector,
    has_value_in_one (lookup arch_key n.labels) arch,
  )

  admits-select_affinity :
      (ns : String) (common : List String) (p : Progress)
      → admits others n (select_affinity ns (sort common) p).spec ≡ (
          node_selector_holds n p.spec.node_selector
          && (any (term_holds others n) (affinity_terms p.spec.affinity) || runs_on n common))
  unfolding select_affinity admits
  admits-select_affinity ns common p = ground (
    arith,
    affinity_holds-append_term others n (in_term arch_key (sort common)) p.spec,
    term_holds-in_term others n arch_key (sort common),
    has_value_in-sort (lookup arch_key n.labels) common,
  )

module _ (h : Handler) (ns : String) (labels : Map String) where
  spec-finish :
      (p : Progress) (e : Option UpdateError)
      → any (carries labels) h.match_node_labels ≡ false
      → (finish h ns labels p e).spec ≡ p.spec
  unfolding finish
  spec-finish p e none_carried =
      ap (λ (q : Progress). q.spec) (match_labels_none ns labels h.match_node_labels p none_carried)

  module _ (secrets : SecretReader) {spec : PodSpec} {arrivals : List Arrival} where
    -- The call comes to `inject`.
    pub update-inject :
        Constrains h labels spec arrivals
        → update_pod_spec h ns labels secrets spec arrivals
          ≡ inject h ns labels
              (preference h labels)
              (common_architectures h arrivals).common
              (started secrets ns spec arrivals)
    unfolding update_pod_spec decide
    update-inject c =
        let named : (spec.node_name == "") ≡ true = (eq_iff _ _).1 c.unscheduled in
        rw (
          named,
          c.unselected,
          update_unscheduled,
          resolve,
          not-first_image h arrivals c.found,
          c.found,
        )

    module _ (others : Requirement → Node → Bool) (n : Node)
        (c : Constrains h labels spec arrivals) where
      -- The preferred branch adds a conjunct, the other one an alternative to the pod's terms.
      admits-update : admits others n (update_pod_spec h ns labels secrets spec arrivals).spec ≡ (
          if contains (common_architectures h arrivals).common (preference h labels).arch
            && (preference h labels).defined
          then admits others n spec && runs_on n ((preference h labels).arch ∷ [])
          else node_selector_holds n spec.node_selector
            && (any (term_holds others n) (affinity_terms spec.affinity)
                || runs_on n (common_architectures h arrivals).common))
      unfolding inject started
      admits-update =
          elim (Bool-cases (
            contains (common_architectures h arrivals).common (preference h labels).arch
            && (preference h labels).defined)) [
              | inl chosen ↦
                  rw (update-inject c, inject, chosen)
                    (ap (admits others n) (spec-finish _ none c.unlabelled)
                      ∙ admits-select_arch others n ns (preference h labels).arch
                          (started secrets ns spec arrivals) (no_arch_entry spec c.unselected))
              | inr other ↦
                  rw (update-inject c, inject, other)
                    (ap (admits others n) (spec-finish _ _ c.unlabelled)
                      ∙ admits-select_affinity others n ns (common_architectures h arrivals).common
                          (started secrets ns spec arrivals))
            ]

-- For a pod that is not scheduled, selects no architecture, has a common one, carries no label of
-- matchNodeLabels and has no required node affinity, the scheduler may choose exactly the nodes
-- that the pod allowed before and whose architecture is the preferred one, if it is common, or
-- else any common one.
pub update_pod_spec_placement :
    (h : Handler) (ns : String) (labels : Map String) (secrets : SecretReader) (spec : PodSpec)
    (arrivals : List Arrival) (others : Requirement → Node → Bool) (n : Node)
    → Constrains h labels spec arrivals
    → required_selector spec.affinity ≡ none
    → admits others n (update_pod_spec h ns labels secrets spec arrivals).spec ≡ (
        admits others n spec
        && runs_on n (target (preference h labels) (common_architectures h arrivals).common))
unfolding admits
update_pod_spec_placement h ns labels secrets spec arrivals others n c e = ground (
  arith,
  admits-update h ns labels secrets others n c,
  affinity_holds_of_none others n spec.affinity e,
)

runs_on-target :
    (pref : Preference) (common : List String) (n : Node)
    → runs_on n (target pref common) ≡ true
    → (a : String) × (lookup arch_key n.labels ≡ some a) × (contains common a ≡ true)
unfolding has_value_in contains
runs_on-target pref common n r = elim (Option-cases (lookup arch_key n.labels)) [
  | inl e ↦ absurd (ground arith)
  | inr (a, e) ↦ (a, e, ground (arith, eq_iff pref.arch a))
]

-- For a pod that is not scheduled, selects no architecture, has a common one, carries no label of
-- matchNodeLabels and has no required node affinity, every image that the registry resolved offers
-- a usable platform of the architecture of every node that the scheduler may choose.
pub update_pod_spec_runs_everywhere :
    (h : Handler) (ns : String) (labels : Map String) (secrets : SecretReader) (spec : PodSpec)
    (arrivals : List Arrival) (others : Requirement → Node → Bool) (n : Node)
    → Constrains h labels spec arrivals
    → required_selector spec.affinity ≡ none
    → admits others n (update_pod_spec h ns labels secrets spec arrivals).spec ≡ true
    → (a : String) × (lookup arch_key n.labels ≡ some a)
      × (all (arrival_offers h a) arrivals ≡ true)
update_pod_spec_runs_everywhere h ns labels secrets spec arrivals others n c e admitted =
    let common = (common_architectures h arrivals).common in
    let both = update_pod_spec_placement h ns labels secrets spec arrivals others n c e in
    let (a, found, member) =
      runs_on-target (preference h labels) common n
        (and_elim (admits others n spec) _ (sym both ∙ admitted)).1 in
    (a, found, ground (arith, contains-common_architectures h arrivals a))

-- A pod that is not scheduled, selects no architecture, has common ones without the preferred one
-- among them, carries no label of matchNodeLabels and has a required node affinity may still be
-- placed on every node that it allowed before, whatever the architecture of the node: the appended
-- term is an alternative to the terms of the pod.
pub update_pod_spec_own_terms :
    (h : Handler) (ns : String) (labels : Map String) (secrets : SecretReader) (spec : PodSpec)
    (arrivals : List Arrival) (others : Requirement → Node → Bool) (n : Node) (s : NodeSelector)
    → Constrains h labels spec arrivals
    → required_selector spec.affinity ≡ some s
    → contains (common_architectures h arrivals).common (preference h labels).arch ≡ false
    → admits others n spec ≡ true
    → admits others n (update_pod_spec h ns labels secrets spec arrivals).spec ≡ true
unfolding admits
update_pod_spec_own_terms h ns labels secrets spec arrivals others n s c e other admitted = ground (
  arith,
  admits-update h ns labels secrets others n c,
  affinity_holds_of_some others n spec.affinity e,
)

-- ===== src/Hook/Update/Frame.antt =====
-- What updatePodSpec leaves alone.
use noe.Common.{
  subst, all, and_elim, true, false, ◌&&◌, ◌||◌, not, String, Option, none, some, List, [], ◌∷◌,
  ◌++◌, ◌==◌, ◌≡◌, refl, sym, arith, eq_iff, eq_refl, is_empty, Bool-cases, inl, inr, ap, ◌∙◌,
  append_assoc, append-nil,
}
use noe.Common.Maps.{Map, lookup, insert, lookup-insert}
use noe.Common.Sets.{contains}
use noe.Common.Sorting.{sort}
use noe.Kube.{Term, NodeSelector, NodeAffinity, Affinity, PodSpec}
use noe.Hook.{Handler, arch_key}
use noe.Hook.Architectures.{Arrival, Collected}
use noe.Hook.Secrets.{SecretReader}
use noe.Hook.Selection.{
  affinity_terms, node_affinity_terms, required_terms, entries, node_architecture_selection,
}
use noe.Hook.Labels.{
  append_required, append_node_affinity, append_affinity, append_term, Progress, constrain,
  match_label, match_labels,
}
use noe.Hook.Update.{
  UpdateError, Preference, select_arch, select_affinity, finish, inject, decide, started,
  update_pod_spec, resolve, update_unscheduled,
}

-- What the program does not read of the affinity and of the node affinity; a nil one has nothing.
abbrev pub affinity_unread : Option Affinity → String
affinity_unread none = ""
affinity_unread (some a) = a.unread

abbrev pub node_unread : Option NodeAffinity → String
node_unread none = ""
node_unread (some a) = a.unread

abbrev pub node_affinity_unread : Option Affinity → String
node_affinity_unread none = ""
node_affinity_unread (some a) = node_unread a.node_affinity

-- `t` has the containers, the name of the node and all that the program does not read from `s`,
-- the terms of `s` with others behind them, and the node selector of `s` but for the architecture
-- and the listed labels.
pub record Extends (keys : List String) (s t : PodSpec) : Type 0 where
  pub node_name : t.node_name ≡ s.node_name
  pub containers : t.containers ≡ s.containers
  pub init_containers : t.init_containers ≡ s.init_containers
  pub image_pull_secrets : t.image_pull_secrets ≡ s.image_pull_secrets
  pub unread : t.unread ≡ s.unread
  pub affinity : affinity_unread t.affinity ≡ affinity_unread s.affinity
  pub node_affinity : node_affinity_unread t.affinity ≡ node_affinity_unread s.affinity
  pub terms : (more : List Term) × (affinity_terms t.affinity ≡ affinity_terms s.affinity ++ more)
  pub selector :
      (k : String)
      → (k == arch_key) ≡ false
      → contains keys k ≡ false
      → lookup k (entries t.node_selector) ≡ lookup k (entries s.node_selector)

module _ (keys : List String) where
  Extends-refl : (s : PodSpec) → Extends keys s s
  Extends-refl s = record {
    node_name = refl;
    containers = refl;
    init_containers = refl;
    image_pull_secrets = refl;
    unread = refl;
    affinity = refl;
    node_affinity = refl;
    terms = ([], sym (append-nil _));
    selector = λ k _ _. refl;
  }

  Extends-trans : {s t u : PodSpec} → Extends keys s t → Extends keys t u → Extends keys s u
  Extends-trans {s} {t} {u} a b = record {
    node_name = b.node_name ∙ a.node_name;
    containers = b.containers ∙ a.containers;
    init_containers = b.init_containers ∙ a.init_containers;
    image_pull_secrets = b.image_pull_secrets ∙ a.image_pull_secrets;
    unread = b.unread ∙ a.unread;
    affinity = b.affinity ∙ a.affinity;
    node_affinity = b.node_affinity ∙ a.node_affinity;
    terms =
        let (xs, p) = a.terms in
        let (ys, q) = b.terms in
        (xs ++ ys, q ∙ (ap (λ l. l ++ ys) p ∙ append_assoc (affinity_terms s.affinity) xs ys));
    selector = λ k m n. b.selector k m n ∙ a.selector k m n;
  }

  required_terms-append :
      (t : Term) (s : Option NodeSelector)
      → required_terms (some (append_required t s)) ≡ required_terms s ++ t ∷ []
  unfolding append_required
  required_terms-append t none = refl
  required_terms-append t (some s) = refl

  node_affinity_terms-append :
      (t : Term) (a : Option NodeAffinity)
      → node_affinity_terms (some (append_node_affinity t a)) ≡ node_affinity_terms a ++ t ∷ []
  unfolding append_node_affinity
  node_affinity_terms-append t none = required_terms-append t none
  node_affinity_terms-append t (some a) = required_terms-append t a.required

  affinity_terms-append :
      (t : Term) (a : Option Affinity)
      → affinity_terms (some (append_affinity t a)) ≡ affinity_terms a ++ t ∷ []
  unfolding append_affinity
  affinity_terms-append t none = node_affinity_terms-append t none
  affinity_terms-append t (some a) = node_affinity_terms-append t a.node_affinity

  affinity_unread-append :
      (t : Term) (a : Option Affinity)
      → affinity_unread (some (append_affinity t a)) ≡ affinity_unread a
  unfolding append_affinity
  affinity_unread-append t none = refl
  affinity_unread-append t (some a) = refl

  node_unread-append :
      (t : Term) (a : Option NodeAffinity)
      → node_unread (some (append_node_affinity t a)) ≡ node_unread a
  unfolding append_node_affinity
  node_unread-append t none = refl
  node_unread-append t (some a) = refl

  node_affinity_unread-append :
      (t : Term) (a : Option Affinity)
      → node_affinity_unread (some (append_affinity t a)) ≡ node_affinity_unread a
  unfolding append_affinity
  node_affinity_unread-append t none = node_unread-append t none
  node_affinity_unread-append t (some a) = node_unread-append t a.node_affinity

  Extends-append_term : (t : Term) (s : PodSpec) → Extends keys s (append_term t s)
  unfolding append_term
  Extends-append_term t s = record {
    node_name = refl;
    containers = refl;
    init_containers = refl;
    image_pull_secrets = refl;
    unread = refl;
    affinity = affinity_unread-append t s.affinity;
    node_affinity = node_affinity_unread-append t s.affinity;
    terms = (t ∷ [], affinity_terms-append t s.affinity);
    selector = λ k _ _. refl;
  }

  -- A write of the architecture or of a listed label.
  Extends-selector :
      (key v : String) (s : PodSpec)
      → (key == arch_key || contains keys key) ≡ true
      → Extends keys s (record s { node_selector = some (insert key v (entries s.node_selector)) })
  Extends-selector key v s listed = record {
    node_name = refl;
    containers = refl;
    init_containers = refl;
    image_pull_secrets = refl;
    unread = refl;
    affinity = refl;
    node_affinity = refl;
    terms = ([], sym (append-nil _));
    selector = λ k m n.
        lookup-insert key k v (entries s.node_selector)
        ∙ ground (arith, eq_iff key k, eq_iff k arch_key);
  }

  Extends-constrain :
      (key v : String) (sel : Option (Map String)) (s : PodSpec)
      → s.node_selector ≡ sel
      → contains keys key ≡ true
      → Extends keys s (constrain key v sel s)
  unfolding constrain
  Extends-constrain key v none s e listed = Extends-append_term _ s
  Extends-constrain key v (some sel) s e listed =
      subst
        (λ (m : Map String). Extends keys s (record s { node_selector = some (insert key v m) }))
        (rw e) (Extends-selector key v s (ground arith))

  Extends-match_label :
      (ns key : String) (val : Option String) (p : Progress)
      → contains keys key ≡ true
      → Extends keys p.spec (match_label ns key val p).spec
  unfolding match_label
  Extends-match_label ns key none p listed = Extends-refl p.spec
  Extends-match_label ns key (some v) p listed =
      Extends-constrain key v p.spec.node_selector p.spec refl listed

  Extends-match_labels :
      (ns : String) (labels : Map String) (some_keys : List String) (p : Progress)
      → all (contains keys) some_keys ≡ true
      → Extends keys p.spec (match_labels ns labels some_keys p).spec
  unfolding match_labels
  Extends-match_labels ns labels [] p listed = Extends-refl p.spec
  Extends-match_labels ns labels (key ∷ more) p listed =
      let (first, rest) = and_elim (contains keys key) (all (contains keys) more) listed in
      Extends-trans (Extends-match_label ns key (lookup key labels) p first)
        (Extends-match_labels ns labels more (match_label ns key (lookup key labels) p) rest)

all-contains :
    (xs ys : List String)
    → ((a : String) → contains xs a ≡ true → contains ys a ≡ true)
    → all (contains ys) xs ≡ true
unfolding contains
all-contains [] ys h = refl
all-contains (x ∷ xs) ys h =
    ground (arith, h x, eq_refl x, all-contains xs ys (λ a m. h a (ground arith)))

module _ (h : Handler) (ns : String) (labels : Map String) where
  Extends-finish :
      (p : Progress) (e : Option UpdateError)
      → Extends h.match_node_labels p.spec (finish h ns labels p e).spec
  unfolding finish
  Extends-finish p e =
      Extends-match_labels h.match_node_labels ns labels h.match_node_labels p
        (all-contains h.match_node_labels h.match_node_labels (λ a m. m))

  Extends-inject :
      (pref : Preference) (common : List String) (p : Progress)
      → Extends h.match_node_labels p.spec (inject h ns labels pref common p).spec
  unfolding inject
  Extends-inject pref common p = elim (Bool-cases (contains common pref.arch && pref.defined)) [
    | inl chosen ↦ rw chosen (
        Extends-trans h.match_node_labels
          (Extends-selector h.match_node_labels arch_key pref.arch p.spec
            (ground (arith, eq_refl arch_key)))
          (Extends-finish (select_arch ns pref.arch p) none))
    | inr other ↦ rw other (
        Extends-trans h.match_node_labels (Extends-append_term h.match_node_labels _ p.spec)
          (Extends-finish (select_affinity ns (sort common) p) _))
  ]

  Extends-decide :
      (pref : Preference) (c : Collected) (p : Progress)
      → Extends h.match_node_labels p.spec (decide h ns labels pref c p).spec
  unfolding decide
  Extends-decide pref c p = elim (Bool-cases c.first_image) [
    | inl nothing ↦ rw nothing (Extends-finish p none)
    | inr found ↦ elim (Bool-cases (is_empty c.common)) [
      | inl disjoint ↦ rw (found, disjoint) (Extends-finish p _)
      | inr shared ↦ rw (found, shared) (Extends-inject pref c.common p)
    ]
  ]

  Extends-unscheduled :
      (secrets : SecretReader) (spec : PodSpec) (arrivals : List Arrival) (found : Option String)
      → Extends h.match_node_labels spec
          (update_unscheduled h ns labels secrets spec arrivals found).spec
  unfolding update_unscheduled resolve
  Extends-unscheduled secrets spec arrivals none =
      Extends-decide _ _ (started secrets ns spec arrivals)
  Extends-unscheduled secrets spec arrivals (some reason) = Extends-finish _ none

-- On every branch updatePodSpec leaves the containers, the node's name and all that it does not
-- read, of the affinity too, as they were, keeps the pod's own affinity terms in place before those that it appends, and
-- changes no entry of the node selector but the architecture and the labels of matchNodeLabels.
pub update_pod_spec-Extends :
    (h : Handler) (ns : String) (labels : Map String) (secrets : SecretReader) (spec : PodSpec)
    (arrivals : List Arrival)
    → Extends h.match_node_labels spec (update_pod_spec h ns labels secrets spec arrivals).spec
unfolding update_pod_spec
update_pod_spec-Extends h ns labels secrets spec arrivals =
    elim (Bool-cases (not (spec.node_name == ""))) [
      | inl scheduled ↦ rw scheduled (Extends-refl h.match_node_labels spec)
      | inr unscheduled ↦
          rw unscheduled (
            Extends-unscheduled h ns labels secrets spec arrivals
              (node_architecture_selection spec))
    ]

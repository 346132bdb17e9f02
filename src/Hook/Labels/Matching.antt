-- ===== src/Hook/Labels/Matching.antt =====
-- What addPodNodeMatchingLabels does to the nodes that a pod may run on: with a node selector every
-- matched label is a constraint, and without one it is an alternative to the other terms.
use noe.Common.{
  Bool, true, false, ◌&&◌, ◌||◌, String, Option, none, some, List, [], ◌∷◌, ◌++◌, ◌≡◌, refl, arith,
  eq_iff, any, is_some, if◌then◌else◌, Option-cases, inl, inr, ap, ◌∙◌,
}
use noe.Common.Maps.{Map, lookup, insert, lookup-insert}
use noe.Common.Sets.{contains}
use noe.Kube.{Requirement, Node}
use noe.Kube.Scheduling.{has_value, has_value_in, term_holds, affinity_holds, admits}
use noe.Hook.{Handler, node_match_selector}
use noe.Hook.Selection.{affinity_terms}
use noe.Hook.Labels.{
  in_term, append_term, Progress, constrain, match_label, match_labels,
  add_pod_node_matching_labels,
}
use noe.Hook.Labels.Placement.{
  selector_holds-lookup, admits_of_no_selector, selector_of_admits, affinity_holds-append_term,
  term_holds-in_term, terms_hold-in_term,
}

-- The pod carries the label.
abbrev pub carries : Map String → String → Bool
carries labels key = is_some (lookup key labels)

abbrev pub shares_value : Option String → Node → String → Bool
shares_value none n key = false
shares_value (some v) n key = has_value (lookup key n.labels) v

-- The pod carries the label, and the node has it with the same value.
abbrev pub shares : Map String → Node → String → Bool
shares labels n key = shares_value (lookup key labels) n key

not-shares :
    (labels : Map String) (n : Node) (keys : List String)
    → any (carries labels) keys ≡ false
    → any (shares labels n) keys ≡ false
not-shares labels n [] h = refl
not-shares labels n (key ∷ keys) h = ground (arith, not-shares labels n keys)

has_value_in_one : (o : Option String) (v : String) → has_value_in o (v ∷ []) ≡ has_value o v
unfolding has_value_in has_value contains
has_value_in_one none v = refl
has_value_in_one (some w) v = ground (arith, eq_iff v w, eq_iff w v)

-- The state after a matched label, without a node selector.
appended : String → String → String → Progress → Progress
appended ns key v p = record {
  spec = append_term (in_term key (v ∷ [])) p.spec;
  metrics = p.metrics ++ node_match_selector ns key ∷ [];
}

appended_selector :
    (ns key v : String) (p : Progress)
    → p.spec.node_selector ≡ none
    → (appended ns key v p).spec.node_selector ≡ none
unfolding appended append_term
appended_selector ns key v p h = h

abbrev insert_found : String → Option String → Map String → Map String
insert_found key none sel = sel
insert_found key (some v) sel = insert key v sel

match_label_selector :
    (ns key : String) (val : Option String) (p : Progress) {sel : Map String}
    → p.spec.node_selector ≡ some sel
    → (match_label ns key val p).spec.node_selector ≡ some (insert_found key val sel)
unfolding match_label
match_label_selector ns key none p h = h
match_label_selector ns key (some v) p h = rw (h, constrain)

match_label-none : (ns key : String) (p : Progress) → match_label ns key none p ≡ p
unfolding match_label
match_label-none ns key p = refl

match_label_terms :
    (ns key v : String) (p : Progress)
    → p.spec.node_selector ≡ none
    → match_label ns key (some v) p ≡ appended ns key v p
unfolding match_label appended
match_label_terms ns key v p h = rw (h, constrain)

module _ (ns : String) (labels : Map String) where
  match_labels_step :
      (key : String) (keys : List String) (p : Progress) {val : Option String}
      → lookup key labels ≡ val
      → match_labels ns labels (key ∷ keys) p
        ≡ match_labels ns labels keys (match_label ns key val p)
  unfolding match_labels
  match_labels_step key keys p e = ap (λ v. match_labels ns labels keys (match_label ns key v p)) e

  -- If the pod carries none of the labels, nothing changes.
  pub match_labels_none :
      (keys : List String) (p : Progress)
      → any (carries labels) keys ≡ false
      → match_labels ns labels keys p ≡ p
  unfolding match_labels
  match_labels_none [] p h = refl
  match_labels_none (key ∷ keys) p h = elim (Option-cases (lookup key labels)) [
    | inl e ↦ rw e (match_labels_none keys p (ground arith))
    | inr (v, e) ↦ ground arith
  ]

  module _ (others : Requirement → Node → Bool) (n : Node) where
    match_labels_terms :
        (keys : List String) (p : Progress)
        → p.spec.node_selector ≡ none
        → affinity_holds others n (match_labels ns labels keys p).spec.affinity ≡ (
            if any (carries labels) keys
            then any (term_holds others n) (affinity_terms p.spec.affinity)
              || any (shares labels n) keys
            else affinity_holds others n p.spec.affinity)
    unfolding appended
    match_labels_terms [] p h = unfold match_labels in refl
    match_labels_terms (key ∷ keys) p h = elim (Option-cases (lookup key labels)) [
      | inl e ↦
          rw (match_labels_step key keys p e, match_label-none, e) (match_labels_terms keys p h)
      | inr (v, e) ↦
          let q = appended ns key v p in
          rw (match_labels_step key keys p e, match_label_terms ns key v p h, e)
            (ground (
              arith,
              match_labels_terms keys q (appended_selector ns key v p h),
              terms_hold-in_term others n key (v ∷ []) p.spec,
              affinity_holds-append_term others n (in_term key (v ∷ [])) p.spec,
              term_holds-in_term others n key (v ∷ []),
              has_value_in_one (lookup key n.labels) v,
              not-shares labels n keys,
            ))
    ]

    match_labels_no_selector :
        (keys : List String) (p : Progress)
        → p.spec.node_selector ≡ none
        → (match_labels ns labels keys p).spec.node_selector ≡ none
    unfolding appended
    match_labels_no_selector [] p h = unfold match_labels in h
    match_labels_no_selector (key ∷ keys) p h = elim (Option-cases (lookup key labels)) [
      | inl e ↦
          rw (match_labels_step key keys p e, match_label-none) (match_labels_no_selector keys p h)
      | inr (v, e) ↦
          rw (match_labels_step key keys p e, match_label_terms ns key v p h)
            (match_labels_no_selector keys (appended ns key v p) (appended_selector ns key v p h))
    ]

  -- The entries that the loop writes, in its order.
  insert_labels : List String → Map String → Map String
  insert_labels [] sel = sel
  insert_labels (key ∷ keys) sel = insert_labels keys (insert_found key (lookup key labels) sel)

  lookup-insert_labels :
      (keys : List String) (sel : Map String) (k : String)
      → lookup k (insert_labels keys sel)
        ≡ (if contains keys k && carries labels k then lookup k labels else lookup k sel)
  unfolding insert_labels contains
  lookup-insert_labels [] sel k = refl
  lookup-insert_labels (key ∷ keys) sel k = elim (Option-cases (lookup key labels)) [
    | inl e ↦ ground (arith, e, eq_iff key k, lookup-insert_labels keys sel k)
    | inr (v, e) ↦ ground (
      arith,
      e,
      eq_iff key k,
      lookup-insert_labels keys (insert key v sel) k,
      lookup-insert key k v sel,
    )
  ]

  match_labels_selector :
      (keys : List String) (p : Progress) {sel : Map String}
      → p.spec.node_selector ≡ some sel
      → (match_labels ns labels keys p).spec.node_selector ≡ some (insert_labels keys sel)
  unfolding match_labels insert_labels
  match_labels_selector [] p h = h
  match_labels_selector (key ∷ keys) p {sel} h =
      match_labels_selector keys (match_label ns key (lookup key labels) p)
        (match_label_selector ns key (lookup key labels) p h)

module _ (h : Handler) (ns : String) (labels : Map String)
    (others : Requirement → Node → Bool) where
  -- With a node selector, a pod that carries a label of the list is only admitted to nodes that
  -- have the label with the pod's value.
  pub matched_label_required :
      (p : Progress) (n : Node) (key v : String) {sel : Map String}
      → p.spec.node_selector ≡ some sel
      → contains h.match_node_labels key ≡ true
      → lookup key labels ≡ some v
      → admits others n (add_pod_node_matching_labels h ns labels p).spec ≡ true
      → has_value (lookup key n.labels) v ≡ true
  unfolding add_pod_node_matching_labels
  matched_label_required p n key v {sel} s c e a =
      selector_holds-lookup n (insert_labels ns labels h.match_node_labels sel) key v
        (selector_of_admits others n _ (match_labels_selector ns labels h.match_node_labels p s) a)
        (lookup-insert_labels ns labels h.match_node_labels sel key ∙ rw (c, e))

  -- Without a node selector, a pod that carries some label of the list is admitted to the nodes
  -- that one of its earlier terms allows, and to those that share one of the labels with it.
  pub matched_labels_widen :
      (p : Progress) (n : Node)
      → p.spec.node_selector ≡ none
      → any (carries labels) h.match_node_labels ≡ true
      → admits others n (add_pod_node_matching_labels h ns labels p).spec ≡ (
          any (term_holds others n) (affinity_terms p.spec.affinity)
          || any (shares labels n) h.match_node_labels)
  unfolding add_pod_node_matching_labels
  matched_labels_widen p n s c =
      admits_of_no_selector others n _
        (match_labels_no_selector ns labels others n h.match_node_labels p s)
      ∙ (match_labels_terms ns labels others n h.match_node_labels p s ∙ rw c)

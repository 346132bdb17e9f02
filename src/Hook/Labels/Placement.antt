-- ===== src/Hook/Labels/Placement.antt =====
-- What an appended term and a matched label do to the nodes that a pod may run on.
use noe.Common.{
  and_elim, ◌∙◌, Bool, true, ◌&&◌, ◌||◌, String, Option, none, some, List, [], ◌∷◌, ◌≡◌, refl,
  arith, eq_iff, any, any-append,
}
use noe.Common.Maps.{Map, lookup, insert}
use noe.Kube.{Requirement, Term, NodeSelector, NodeAffinity, Affinity, PodSpec, Node}
use noe.Kube.Scheduling.{
  has_value, has_value_in, selector_holds, node_selector_holds, term_holds, affinity_holds, admits,
  required_holds, node_affinity_holds,
}
use noe.Hook.Selection.{affinity_terms, node_affinity_terms, required_terms}
use noe.Hook.Labels.{in_term, append_required, append_node_affinity, append_affinity, append_term}

-- The pointer to the required node selector, nil if one on the way is.
abbrev node_affinity_required : Option NodeAffinity → Option NodeSelector
node_affinity_required none = none
node_affinity_required (some a) = a.required

abbrev pub required_selector : Option Affinity → Option NodeSelector
required_selector none = none
required_selector (some a) = node_affinity_required a.node_affinity

pub selector_holds-lookup :
    (n : Node) (sel : Map String) (k v : String)
    → selector_holds n sel ≡ true
    → lookup k sel ≡ some v
    → has_value (lookup k n.labels) v ≡ true
unfolding selector_holds lookup
selector_holds-lookup n [] k v h e = cc
selector_holds-lookup n ((j, w) ∷ sel) k v h e =
    ground (arith, eq_iff j k, selector_holds-lookup n sel k v)

pub selector_holds-insert :
    (n : Node) (sel : Map String) (k v : String)
    → lookup k sel ≡ none
    → selector_holds n (insert k v sel) ≡ (selector_holds n sel && has_value (lookup k n.labels) v)
unfolding selector_holds lookup insert
selector_holds-insert n [] k v e = ground arith
selector_holds-insert n ((j, w) ∷ sel) k v e = ground (arith, selector_holds-insert n sel k v)

module _ (others : Requirement → Node → Bool) (n : Node) where
  pub term_holds-in_term :
      (key : String) (vs : List String)
      → term_holds others n (in_term key vs) ≡ has_value_in (lookup key n.labels) vs
  unfolding term_holds
  term_holds-in_term key vs = ground arith

  required_holds-append :
      (t : Term) (s : Option NodeSelector)
      → any (term_holds others n) (append_required t s).terms
        ≡ (any (term_holds others n) (required_terms s) || term_holds others n t)
  unfolding append_required
  required_holds-append t none = ground arith
  required_holds-append t (some s) =
      ground (arith, any-append (term_holds others n) s.terms (t ∷ []))

  node_affinity_holds-append :
      (t : Term) (a : Option NodeAffinity)
      → node_affinity_holds others n (some (append_node_affinity t a))
        ≡ (any (term_holds others n) (node_affinity_terms a) || term_holds others n t)
  unfolding append_node_affinity affinity_holds
  node_affinity_holds-append t none = required_holds-append t none
  node_affinity_holds-append t (some a) = required_holds-append t a.required

  affinity_holds-append :
      (t : Term) (a : Option Affinity)
      → affinity_holds others n (some (append_affinity t a))
        ≡ (any (term_holds others n) (affinity_terms a) || term_holds others n t)
  unfolding append_affinity affinity_holds
  affinity_holds-append t none = node_affinity_holds-append t none
  affinity_holds-append t (some a) = node_affinity_holds-append t a.node_affinity

  -- The terms of a required affinity are alternatives: a new one admits more nodes.
  pub affinity_holds-append_term :
      (t : Term) (spec : PodSpec)
      → affinity_holds others n (append_term t spec).affinity
        ≡ (any (term_holds others n) (affinity_terms spec.affinity) || term_holds others n t)
  unfolding append_term
  affinity_holds-append_term t spec = affinity_holds-append t spec.affinity

  node_affinity_holds_of_none :
      (a : Option NodeAffinity)
      → node_affinity_required a ≡ none
      → (node_affinity_holds others n a ≡ true) × (node_affinity_terms a ≡ [])
  unfolding affinity_holds
  node_affinity_holds_of_none none e = (refl, refl)
  node_affinity_holds_of_none (some a) e = (rw e, rw e)

  -- Without a required selector there is no term, and every node is admitted.
  pub affinity_holds_of_none :
      (a : Option Affinity)
      → required_selector a ≡ none
      → (affinity_holds others n a ≡ true) × (affinity_terms a ≡ [])
  unfolding affinity_holds
  affinity_holds_of_none none e = (refl, refl)
  affinity_holds_of_none (some a) e = node_affinity_holds_of_none a.node_affinity e

  -- With a required selector the terms alone decide.
  node_affinity_holds_of_some :
      (a : Option NodeAffinity) {s : NodeSelector}
      → node_affinity_required a ≡ some s
      → node_affinity_holds others n a ≡ any (term_holds others n) (node_affinity_terms a)
  unfolding affinity_holds
  node_affinity_holds_of_some none e = ground arith
  node_affinity_holds_of_some (some a) e = rw (e, required_holds)

  pub affinity_holds_of_some :
      (a : Option Affinity) {s : NodeSelector}
      → required_selector a ≡ some s
      → affinity_holds others n a ≡ any (term_holds others n) (affinity_terms a)
  unfolding affinity_holds
  affinity_holds_of_some none e = ground arith
  affinity_holds_of_some (some a) e = node_affinity_holds_of_some a.node_affinity e

  terms_hold-append_term :
      (t : Term) (spec : PodSpec)
      → any (term_holds others n) (affinity_terms (append_term t spec).affinity)
        ≡ affinity_holds others n (append_term t spec).affinity
  unfolding append_term affinity_holds
  terms_hold-append_term t spec = go spec.affinity
    where
      go_node :
          (a : Option NodeAffinity)
          → any (term_holds others n) (node_affinity_terms (some (append_node_affinity t a)))
            ≡ node_affinity_holds others n (some (append_node_affinity t a))
      go_node none = refl
      go_node (some a) = refl

      go :
          (a : Option Affinity)
          → any (term_holds others n) (affinity_terms (some (append_affinity t a)))
            ≡ affinity_holds others n (some (append_affinity t a))
      go none = refl
      go (some a) = go_node a.node_affinity

  -- A matched label on a pod without a node selector is one more alternative.
  pub terms_hold-in_term :
      (key : String) (vs : List String) (spec : PodSpec)
      → any (term_holds others n) (affinity_terms (append_term (in_term key vs) spec).affinity) ≡ (
          any (term_holds others n) (affinity_terms spec.affinity)
          || has_value_in (lookup key n.labels) vs)
  terms_hold-in_term key vs spec =
      terms_hold-append_term (in_term key vs) spec
      ∙ (affinity_holds-append_term (in_term key vs) spec ∙ rw term_holds-in_term)

  pub admits_of_no_selector :
      (spec : PodSpec)
      → spec.node_selector ≡ none
      → admits others n spec ≡ affinity_holds others n spec.affinity
  unfolding admits
  admits_of_no_selector spec h = rw (h, node_selector_holds)

  pub selector_of_admits :
      (spec : PodSpec) {sel : Map String}
      → spec.node_selector ≡ some sel
      → admits others n spec ≡ true
      → selector_holds n sel ≡ true
  unfolding admits
  selector_of_admits spec h a =
      rw (h, node_selector_holds) at (and_elim (node_selector_holds n spec.node_selector) _ a).0

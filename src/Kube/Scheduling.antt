-- ===== src/Kube/Scheduling.antt =====
-- The scheduler's documented reading of a pod's node constraints, against which the changes to a
-- pod spec are judged: all entries of the node selector hold, and, if there is a required node
-- affinity, one of its terms holds. A term holds if it is not empty and all its requirements do.
-- Only the operator `In` on labels is spelled out; the others are a parameter.
use noe.Common.{
  Bool, true, false, ◌&&◌, not, String, Option, none, some, List, ◌==◌, all, any, is_empty,
}
use noe.Common.Maps.{Map, lookup}
use noe.Common.Sets.{contains}
use noe.Kube.{Operator, Requirement, Term, NodeSelector, NodeAffinity, Affinity, PodSpec, Node}

-- Whether a label is present with the value.
unfoldable pub has_value : Option String → String → Bool
has_value none v = false
has_value (some w) v = w == v

-- Whether a label is present with one of the values.
unfoldable pub has_value_in : Option String → List String → Bool
has_value_in none vs = false
has_value_in (some w) vs = contains vs w

-- Every entry of a node selector holds.
unfoldable pub selector_holds : Node → Map String → Bool
unfolding has_value
selector_holds n sel = all (λ e. has_value (lookup e.0 n.labels) e.1) sel

-- A nil node selector constrains nothing.
unfoldable pub node_selector_holds : Node → Option (Map String) → Bool
unfolding selector_holds
node_selector_holds n none = true
node_selector_holds n (some sel) = selector_holds n sel

-- `others` decides requirements on fields, and those with an operator other than `In`.
module _ (others : Requirement → Node → Bool) where
  expression_by : Operator → Requirement → Node → Bool
  expression_by Operator.is_in r n = has_value_in (lookup r.key n.labels) r.values
  expression_by o r n = others r n

  unfoldable pub expression_holds : Requirement → Node → Bool
  unfolding expression_by has_value_in
  expression_holds r n = expression_by r.operator r n

  unfoldable pub term_holds : Node → Term → Bool
  unfolding expression_holds
  term_holds n t =
      not (is_empty t.match_expressions && is_empty t.match_fields)
      && all (λ r. expression_holds r n) t.match_expressions
      && all (λ r. others r n) t.match_fields

  unfoldable pub required_holds : Node → Option NodeSelector → Bool
  required_holds n none = true
  required_holds n (some s) = any (term_holds n) s.terms

  unfoldable pub node_affinity_holds : Node → Option NodeAffinity → Bool
  node_affinity_holds n none = true
  node_affinity_holds n (some a) = required_holds n a.required

  unfoldable pub affinity_holds : Node → Option Affinity → Bool
  unfolding required_holds node_affinity_holds
  affinity_holds n none = true
  affinity_holds n (some a) = node_affinity_holds n a.node_affinity

  -- Whether the scheduler may place the pod on the node.
  unfoldable pub admits : Node → PodSpec → Bool
  unfolding node_selector_holds affinity_holds
  admits n spec = node_selector_holds n spec.node_selector && affinity_holds n spec.affinity

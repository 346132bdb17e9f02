-- ===== src/Hook/Selection.antt =====
-- pkg/arch/hook.go, PodSpecHasNodeArchitectureSelection and GetContainerImages.
use noe.Common.{
  Bool, ◌||◌, String, Option, none, some, List, [], ◌∷◌, ◌++◌, ◌==◌, any, is_some, if◌then◌else◌,
}
use noe.Common.Maps.{Map, lookup}
use noe.Kube.{Requirement, Term, NodeSelector, NodeAffinity, Affinity, Container, PodSpec}
use noe.Hook.{arch_key, beta_arch_key}

-- The inner loop of GetContainerImages.
list_images : List Container → List String
list_images [] = []
list_images (c ∷ cs) = if c.image == "" then list_images cs else c.image ∷ list_images cs

unfoldable pub get_container_images : List (List Container) → List String
unfolding list_images
get_container_images [] = []
get_container_images (cs ∷ more) = list_images cs ++ get_container_images more

-- A read of a map that may be nil.
abbrev pub entries : Option (Map String) → Map String
entries none = []
entries (some m) = m

abbrev pub required_terms : Option NodeSelector → List Term
required_terms none = []
required_terms (some s) = s.terms

abbrev pub node_affinity_terms : Option NodeAffinity → List Term
node_affinity_terms none = []
node_affinity_terms (some a) = required_terms a.required

-- The required node selector terms, none if a pointer on the way is nil.
abbrev pub affinity_terms : Option Affinity → List Term
affinity_terms none = []
affinity_terms (some a) = node_affinity_terms a.node_affinity

abbrev pub is_arch_requirement : Requirement → Bool
is_arch_requirement r = r.key == arch_key || r.key == beta_arch_key

abbrev pub is_name_requirement : Requirement → Bool
is_name_requirement r = r.key == "metadata.name"

term_selection : Term → Option String
term_selection t =
    if any is_arch_requirement t.match_expressions
    then some "node affinity label selector found"
    else if any is_name_requirement t.match_fields
    then some "node affinity field selector found"
    else none

abbrev or_else : Option String → Option String → Option String
or_else none b = b
or_else (some a) b = some a

terms_selection : List Term → Option String
terms_selection [] = none
terms_selection (t ∷ ts) = or_else (term_selection t) (terms_selection ts)

-- PodSpecHasNodeArchitectureSelection: the reason, or `none` for ("", false).
unfoldable pub node_architecture_selection : PodSpec → Option String
unfolding term_selection terms_selection
node_architecture_selection spec =
    if is_some (lookup beta_arch_key (entries spec.node_selector))
      || is_some (lookup arch_key (entries spec.node_selector))
    then some "node-selector found"
    else terms_selection (affinity_terms spec.affinity)

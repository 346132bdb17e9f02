-- ===== src/Hook/Update/Order.antt =====
-- The result of updatePodSpec against the order in which the registry answers.
use noe.Common.{
  ◌&&◌, String, Option, none, some, List, [], ◌∷◌, ◌≡◌, refl, is_empty, not, ◌==◌, Bool-cases, inl,
  inr,
}
use noe.Common.Maps.{Map, lookup}
use noe.Common.Sets.{contains}
use noe.Common.Sorting.{sort}
use noe.Kube.{PodSpec}
use noe.Hook.{Handler, Platform}
use noe.Hook.Architectures.{Arrival, Collected, Runs, common_architectures}
use noe.Hook.Architectures.Order.{common-order, first_image-order, is_empty-order, sort-order}
use noe.Hook.Labels.{Progress, match_label, match_labels}
use noe.Hook.Secrets.{SecretReader}
use noe.Hook.Selection.{node_architecture_selection}
use noe.Hook.Update.{
  UpdateError, Outcome, Preference, select_arch, select_affinity, finish, inject, decide,
  update_pod_spec, resolve, update_unscheduled, preference, Answers,
}

-- The same pod spec and the same error; the increments may stand in another order.
pub record SameResult (o₁ o₂ : Outcome) : Type 0 where
  pub spec : o₁.spec ≡ o₂.spec
  pub error : o₁.error ≡ o₂.error

match_label-spec :
    (ns key : String) (val : Option String) (p q : Progress)
    → p.spec ≡ q.spec
    → (match_label ns key val p).spec ≡ (match_label ns key val q).spec
unfolding match_label
match_label-spec ns key none p q e = e
match_label-spec ns key (some v) p q e = cc

match_labels-spec :
    (ns : String) (labels : Map String) (keys : List String) (p q : Progress)
    → p.spec ≡ q.spec
    → (match_labels ns labels keys p).spec ≡ (match_labels ns labels keys q).spec
unfolding match_labels
match_labels-spec ns labels [] p q e = e
match_labels-spec ns labels (key ∷ keys) p q e =
    match_labels-spec ns labels keys _ _ (match_label-spec ns key (lookup key labels) p q e)

module _ (h : Handler) (ns : String) (labels : Map String) where
  finish-SameResult :
      (p q : Progress) (e₁ e₂ : Option UpdateError)
      → p.spec ≡ q.spec
      → e₁ ≡ e₂
      → SameResult (finish h ns labels p e₁) (finish h ns labels q e₂)
  unfolding finish
  finish-SameResult p q e₁ e₂ s e = record {
    spec = match_labels-spec ns labels h.match_node_labels p q s;
    error = e;
  }

  inject-SameResult :
      (pref : Preference) (c₁ c₂ : List String) (p q : Progress)
      → contains c₁ pref.arch ≡ contains c₂ pref.arch
      → sort c₁ ≡ sort c₂
      → p.spec ≡ q.spec
      → SameResult (inject h ns labels pref c₁ p) (inject h ns labels pref c₂ q)
  unfolding inject
  inject-SameResult pref c₁ c₂ p q c s e =
      elim (Bool-cases (contains c₂ pref.arch && pref.defined)) [
        | inl chosen ↦
            rw (c, chosen)
              (finish-SameResult (select_arch ns pref.arch p) (select_arch ns pref.arch q) none none
                (unfold select_arch in cc) refl)
        | inr other ↦
            rw (c, other)
              (finish-SameResult (select_affinity ns (sort c₁) p) (select_affinity ns (sort c₂) q) _
                _ (unfold select_affinity in cc) refl)
      ]

  decide-SameResult :
      (pref : Preference) (c₁ c₂ : Collected) (p q : Progress)
      → c₁.first_image ≡ c₂.first_image
      → is_empty c₁.common ≡ is_empty c₂.common
      → contains c₁.common pref.arch ≡ contains c₂.common pref.arch
      → sort c₁.common ≡ sort c₂.common
      → p.spec ≡ q.spec
      → SameResult (decide h ns labels pref c₁ p) (decide h ns labels pref c₂ q)
  unfolding decide
  decide-SameResult pref c₁ c₂ p q f n c s e = elim (Bool-cases c₂.first_image) [
    | inl none_yet ↦ rw (f, none_yet) (finish-SameResult p q none none e refl)
    | inr some_image ↦ elim (Bool-cases (is_empty c₂.common)) [
      | inl nothing ↦ rw (f, some_image, n, nothing) (finish-SameResult p q _ _ e refl)
      | inr found ↦
          rw (f, some_image, n, found) (inject-SameResult pref c₁.common c₂.common p q c s e)
    ]
  ]

  module _ (secrets : SecretReader) (spec : PodSpec) {goroutine : String → Arrival}
      {images : List String} {a₁ a₂ : List Arrival} (r₁ : Runs goroutine images a₁)
      (r₂ : Runs goroutine images a₂) where
    resolve-SameResult :
        SameResult (resolve h ns labels secrets spec a₁) (resolve h ns labels secrets spec a₂)
    unfolding resolve
    resolve-SameResult =
        decide-SameResult (preference h labels) (common_architectures h a₁)
          (common_architectures h a₂) _ _ (first_image-order h r₁ r₂) (is_empty-order h r₁ r₂)
          (common-order h r₁ r₂ (preference h labels).arch) (sort-order h r₁ r₂) refl

    unscheduled-SameResult :
        (found : Option String)
        → SameResult
            (update_unscheduled h ns labels secrets spec a₁ found)
            (update_unscheduled h ns labels secrets spec a₂ found)
    unfolding update_unscheduled
    unscheduled-SameResult none = resolve-SameResult
    unscheduled-SameResult (some reason) = record { spec = refl; error = refl }

    update_pod_spec-SameResult :
        SameResult
          (update_pod_spec h ns labels secrets spec a₁)
          (update_pod_spec h ns labels secrets spec a₂)
    unfolding update_pod_spec
    update_pod_spec-SameResult = elim (Bool-cases (not (spec.node_name == ""))) [
      | inl scheduled ↦ rw scheduled (record { spec = refl; error = refl })
      | inr unscheduled ↦ rw unscheduled (unscheduled-SameResult (node_architecture_selection spec))
    ]

-- However the goroutines that ask the registry for the pod's images interleave, the changed pod
-- spec and the returned error are the same.
pub update_pod_spec_order :
    (h : Handler) (ns : String) (labels : Map String)
    (list_archs : String → String → Option (List Platform)) (secrets : SecretReader)
    (spec : PodSpec) {a₁ a₂ : List Arrival}
    → Answers list_archs secrets ns spec a₁
    → Answers list_archs secrets ns spec a₂
    → SameResult
        (update_pod_spec h ns labels secrets spec a₁)
        (update_pod_spec h ns labels secrets spec a₂)
update_pod_spec_order h ns labels list_archs secrets spec r₁ r₂ =
    update_pod_spec-SameResult h ns labels secrets spec r₁ r₂

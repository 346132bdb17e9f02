-- ===== src/Report/Totals.antt =====
-- What the totals of the report are.
use noe.Common.{
  ℕ, ◌+◌, ◌*◌, Bool, false, String, Option, none, some, List, [], ◌∷◌, ◌≡◌, refl, ◌∙◌, subst, arith,
  ◌==◌, eq_iff, Bool-cases, Option-cases, inl, inr, if◌then◌else◌,
}
use noe.Common.Maps.{Map, lookup, insert, lookup-insert}
use noe.Hook.{Platform}
use noe.Report.{
  UsageRef, ImageUsage, ReportedContainer, ReportedPod, Reporting, platforms_has_arm, pod_ref,
  or_new, add_quantity, count_usage, known_or_listed, runnable, remembered, report_containers,
  report_pods, print_report, report,
}

-- The registry says that the image is for arm64.
abbrev pub is_arm : Option (List Platform) → Bool
is_arm none = false
is_arm (some platforms) = platforms_has_arm platforms

abbrev pub asked_for : Option ℕ → ℕ
asked_for none = 0
asked_for (some q) = q

module _ (list_archs : String → Option (List Platform)) (ask : ReportedContainer → Option ℕ) where
  -- What a pod's containers ask for, up to the first one whose image is not for arm64
  abbrev pub container_requests : List ReportedContainer → ℕ
  container_requests [] = 0
  container_requests (c ∷ cs) =
      let rest = container_requests cs in
      if is_arm (list_archs c.image) then asked_for (ask c) + rest else 0

  abbrev pub pod_requests : List ReportedPod → ℕ
  pod_requests [] = 0
  pod_requests (p ∷ ps) = container_requests p.containers + pod_requests ps

-- The sum over the images
sum_of : (ImageUsage → ℕ) → Map ImageUsage → ℕ
sum_of size [] = 0
sum_of size ((image, usage) ∷ usages) = size usage + sum_of size usages

size_at : (ImageUsage → ℕ) → Option ImageUsage → ℕ
size_at size none = 0
size_at size (some usage) = size usage

sum_of-insert :
    (size : ImageUsage → ℕ) (image : String) (usage : ImageUsage) (m : Map ImageUsage)
    → sum_of size (insert image usage m) + size_at size (lookup image m)
      ≡ sum_of size m + size usage
unfolding sum_of size_at lookup insert
sum_of-insert size image usage [] = omega arith
sum_of-insert size image usage ((k, u) ∷ m) = ground (arith, sum_of-insert size image usage m)

-- Every image that is known has the platforms that the registry gives.
abbrev IsKnown : (String → Option (List Platform)) → Map (List Platform) → Type 0
IsKnown list_archs m =
    (image : String) (platforms : List Platform)
    → lookup image m ≡ some platforms
    → list_archs image ≡ some platforms

known-eq :
    (list_archs : String → Option (List Platform)) (m : Map (List Platform)) (image : String)
    → IsKnown list_archs m
    → known_or_listed (lookup image m) (list_archs image) ≡ list_archs image
unfolding known_or_listed
known-eq list_archs m image k = elim (Option-cases (lookup image m)) [
  | inl missing ↦ rw missing refl
  | inr (platforms, found) ↦ rw (found, k image platforms found) refl
]

insert-IsKnown :
    (list_archs : String → Option (List Platform)) (m : Map (List Platform)) (image : String)
    (platforms : List Platform)
    → IsKnown list_archs m
    → list_archs image ≡ some platforms
    → IsKnown list_archs (insert image platforms m)
insert-IsKnown list_archs m image platforms k e asked found =
    rw (lookup-insert image asked platforms m) (elim (Bool-cases (image == asked)) [
      | inl same ↦
          rw same
            (λ h. subst (λ i. list_archs i ≡ some found) ((eq_iff image asked).0 same) (e ∙ h))
      | inr other ↦ rw other (k asked found)
    ])

-- A quantity of the usages, with what a container adds to it
record Measure : Type 0 where
  size : ImageUsage → ℕ
  ask : ReportedContainer → Option ℕ
  new : (platforms : List Platform) → size (or_new platforms none) ≡ 0
  grows :
      (ref : UsageRef) (c : ReportedContainer) (usage : ImageUsage)
      → size (count_usage ref c usage) ≡ size usage + asked_for (ask c)

size-or_new :
    (q : Measure) (platforms : List Platform) (o : Option ImageUsage)
    → q.size (or_new platforms o) ≡ size_at q.size o
unfolding or_new size_at
size-or_new q platforms none = q.new platforms
size-or_new q platforms (some usage) = refl

module _ (list_archs : String → Option (List Platform)) (q : Measure) where
  -- What a container adds to the sum
  sum-runnable :
      (ref : UsageRef) (c : ReportedContainer) (platforms : List Platform) (r : Reporting)
      → sum_of q.size (runnable ref c platforms r).pod_runnable_on_arm
        ≡ sum_of q.size r.pod_runnable_on_arm + asked_for (q.ask c)
  unfolding runnable
  sum-runnable ref c platforms r =
      let before = lookup c.image r.pod_runnable_on_arm in
      omega (
        arith,
        sum_of-insert q.size c.image (count_usage ref c (or_new platforms before))
            r.pod_runnable_on_arm,
        q.grows ref c (or_new platforms before),
        size-or_new q platforms before,
      )

  -- The loop over a pod's containers keeps what is known, and adds what they ask for.
  counted :
      (ref : UsageRef) (cs : List ReportedContainer) (r : Reporting)
      → IsKnown list_archs r.known_image_archs
      → IsKnown list_archs (report_containers list_archs ref cs r).known_image_archs
        × (sum_of q.size (report_containers list_archs ref cs r).pod_runnable_on_arm
            ≡ sum_of q.size r.pod_runnable_on_arm + container_requests list_archs q.ask cs)
  unfolding report_containers remembered
  counted ref [] r k = (k, omega arith)
  counted ref (c ∷ cs) r k =
      let same = known-eq list_archs r.known_image_archs c.image k in
      elim (Option-cases (list_archs c.image)) [
        | inl unknown ↦ rw (same ∙ unknown, unknown, report_containers) (k, omega arith)
        | inr (platforms, found) ↦
            let known = insert-IsKnown list_archs r.known_image_archs c.image platforms k found in
            elim (Bool-cases (platforms_has_arm platforms)) [
              | inl arm ↦
                  let (k2, sum) = counted ref cs (runnable ref c platforms r) known in
                  rw (same ∙ found, found, report_containers, arm)
                    (k2, omega (arith, sum, sum-runnable ref c platforms r))
              | inr other ↦ rw (same ∙ found, found, report_containers, other) (known, omega arith)
            ]
      ]

  counted_pods :
      (ps : List ReportedPod) (r : Reporting)
      → IsKnown list_archs r.known_image_archs
      → sum_of q.size (report_pods list_archs ps r).pod_runnable_on_arm
        ≡ sum_of q.size r.pod_runnable_on_arm + pod_requests list_archs q.ask ps
  unfolding report_pods
  counted_pods [] r k = omega arith
  counted_pods (p ∷ ps) r k =
      let (k2, sum) = counted (pod_ref p) p.containers r k in
      omega
        (arith, sum, counted_pods ps (report_containers list_archs (pod_ref p) p.containers r) k2)

  counted_all :
      (ps : List ReportedPod)
      → sum_of q.size
          (report_pods list_archs ps
            (record { known_image_archs = []; pod_runnable_on_arm = [] })).pod_runnable_on_arm
        ≡ pod_requests list_archs q.ask ps
  unfolding sum_of lookup
  counted_all ps = omega (
    arith,
    counted_pods ps (record { known_image_archs = []; pod_runnable_on_arm = [] })
        (λ image platforms h. ground arith),
  )

-- The loop that prints adds twice the sum.
print-totals :
    (m : Map ImageUsage) (cpu memory : ℕ)
    → ((print_report m cpu memory).1.0 ≡ cpu + 2 * sum_of (λ u. u.total_cpu) m)
      × ((print_report m cpu memory).1.1 ≡ memory + 2 * sum_of (λ u. u.total_memory) m)
unfolding print_report sum_of
print-totals [] cpu memory = (omega arith, omega arith)
print-totals ((image, usage) ∷ m) cpu memory =
    let (c, d) =
      print-totals m (cpu + (usage.total_cpu + usage.total_cpu))
        (memory + (usage.total_memory + usage.total_memory)) in
    (omega (arith, c), omega (arith, d))

measured_cpu : Measure
unfolding count_usage or_new add_quantity
measured_cpu = record {
  size = λ u. u.total_cpu;
  ask = λ c. c.cpu;
  new = λ platforms. refl;
  grows = λ ref c usage. grow c.cpu usage.total_cpu;
}
  where
    grow : (o : Option ℕ) (t : ℕ) → add_quantity o t ≡ t + asked_for o
    grow none t = omega arith
    grow (some x) t = refl

measured_memory : Measure
unfolding count_usage or_new add_quantity
measured_memory = record {
  size = λ u. u.total_memory;
  ask = λ c. c.memory;
  new = λ platforms. refl;
  grows = λ ref c usage. grow c.memory usage.total_memory;
}
  where
    grow : (o : Option ℕ) (t : ℕ) → add_quantity o t ≡ t + asked_for o
    grow none t = omega arith
    grow (some x) t = refl

-- The totals that the report prints are twice what the pods ask for, each pod with its containers up
-- to the first one whose image is unknown to the registry or not for arm64.
pub report-doubles :
    (list_archs : String → Option (List Platform)) (pods : List ReportedPod)
    → ((report list_archs pods).1.0 ≡ 2 * pod_requests list_archs (λ c. c.cpu) pods)
      × ((report list_archs pods).1.1 ≡ 2 * pod_requests list_archs (λ c. c.memory) pods)
unfolding report measured_cpu measured_memory
report-doubles list_archs pods =
    let found =
      report_pods list_archs pods (record { known_image_archs = []; pod_runnable_on_arm = [] }) in
    let (c, d) = print-totals found.pod_runnable_on_arm 0 0 in
    (
      omega (arith, c, counted_all list_archs measured_cpu pods),
      omega (arith, d, counted_all list_archs measured_memory pods),
    )

-- ===== src/Startup/Preferred.antt =====
-- The check before the start protects the hook's preference.
use noe.Common.{
  true, false, String, Option, none, some, ◌≡◌, ◌⊎◌, inl, inr, refl, sym, ap, ◌∙◌, arith, eq_iff,
  Bool-cases, Option-cases, subst,
}
use noe.Common.Maps.{Map, lookup}
use noe.Hook.{Handler, is_arch_supported}
use noe.Hook.Options.{
  new_handler, apply_options, with_architecture, with_schedulable_architectures, with_os,
  with_match_node_labels,
}
use noe.Hook.Update.{preference, preferred_label}
use noe.Registry.Credentials.{Host}
use noe.Startup.{Flags, Started, schedulable_slice, refuses, configured_handler, start}

-- The preference of a handler whose configured one is supported
preference_supported :
    (h : Handler) (labels : Map String)
    → (h.preferred_architecture ≡ "") ⊎ (is_arch_supported h h.preferred_architecture ≡ true)
    → ((preference h labels).arch ≡ "") ⊎ (is_arch_supported h (preference h labels).arch ≡ true)
unfolding preference
preference_supported h labels c = elim (Option-cases (lookup preferred_label labels)) [
  | inl unlabelled ↦
      rw (preference, unlabelled) (ground (arith, c, eq_iff h.preferred_architecture ""))
  | inr (a, labelled) ↦
      rw (preference, labelled) (ground (arith, c, eq_iff h.preferred_architecture "", eq_iff a ""))
]

configured :
    (f : Flags)
    → refuses f ≡ false
    → ((configured_handler f).preferred_architecture ≡ "")
      ⊎ (is_arch_supported (configured_handler f) (configured_handler f).preferred_architecture
          ≡ true)
unfolding refuses configured_handler new_handler apply_options with_architecture
    with_schedulable_architectures with_os with_match_node_labels is_arch_supported
    schedulable_slice
configured f accepted = ground (arith, eq_iff f.preferred_arch "", eq_iff f.schedulable_archs "")

handler_or : Handler → Option Started → Handler
handler_or k none = k
handler_or k (some s) = s.handler

start-handler :
    (h : Host) (trim : String → String) (f : Flags)
    → refuses f ≡ false
    → handler_or (configured_handler f) (start h trim f) ≡ configured_handler f
unfolding handler_or start
start-handler h trim f accepted = rw accepted refl

-- If main starts, the hook prefers for a pod with any labels either no architecture or one that
-- the cluster can schedule.
pub started_prefers_schedulable :
    (h : Host) (trim : String → String) (f : Flags) (s : Started) (labels : Map String)
    → start h trim f ≡ some s
    → ((preference s.handler labels).arch ≡ "")
      ⊎ (is_arch_supported s.handler (preference s.handler labels).arch ≡ true)
unfolding start refuses configured_handler handler_or
started_prefers_schedulable h trim f s labels e = elim (Bool-cases (refuses f)) [
  | inl refused ↦ ground (arith, refused, e)
  | inr accepted ↦
      let same : configured_handler f ≡ s.handler =
        sym (start-handler h trim f accepted) ∙ ap (handler_or (configured_handler f)) e in
      subst
        (λ k.
          ((preference k labels).arch ≡ "")
          ⊎ (is_arch_supported k (preference k labels).arch ≡ true))
        same (preference_supported (configured_handler f) labels (configured f accepted))
]

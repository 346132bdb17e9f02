-- ===== src/Controller/Gauge.antt =====
-- pkg/controllers/pod.go: the gauge ImageCount at the labels of an image and a platform, as the
-- vector of the metrics library keeps it: Inc and Dec start from 0, DeleteLabelValues takes the
-- series away.
pub mod Changes
pub mod Shown
pub mod Runs
mod Examples
use noe.Common.{
  ℕ, zero, suc, ◌+◌, ◌*◌, Bool, true, false, ◌&&◌, String, Option, none, some, List, [], ◌∷◌, ◌++◌,
  ◌≡◌, refl, sym, ◌∙◌, ap, subst, arith, ◌==◌, eq_refl, any, Bool-cases, inl, inr, if◌then◌else◌,
  any-append, append_assoc,
}
use native.Mathlib.Nat.{suc-mul, add-suc, mul-zero}
use mathlib.Core.Bool.{or-true}
use noe.Hook.{Platform}
use noe.Controller.{ℤ, pos, increment, decrement, GaugeOp, inc, dec, delete_values}
use noe.Controller.Statistics.{same_platform, stale_ops, inc_ops, dec_ops}

abbrev or_zero : Option ℤ → ℤ
or_zero none = pos 0
or_zero (some z) = z

-- A change of the series of the image `i` and the platform `p`; `none` is no series.
abbrev changed : String → Platform → GaugeOp → Option ℤ → Option ℤ
changed i p (inc j q) g = if i == j && same_platform p q then some (increment (or_zero g)) else g
changed i p (dec j q) g = if i == j && same_platform p q then some (decrement (or_zero g)) else g
changed i p (delete_values j q) g = if i == j && same_platform p q then none else g

unfoldable pub series : String → Platform → Option ℤ → List GaugeOp → Option ℤ
series i p g [] = g
series i p g (op ∷ ops) = series i p (changed i p op g) ops

-- How often a platform stands in the list
abbrev pub multiplicity : Platform → List Platform → ℕ
multiplicity p [] = 0
multiplicity p (q ∷ qs) =
    let rest = multiplicity p qs in if same_platform p q then suc rest else rest

pub series-append :
    (i : String) (p : Platform) (g : Option ℤ) (a b : List GaugeOp)
    → series i p g (a ++ b) ≡ series i p (series i p g a) b
unfolding series
series-append i p g [] b = refl
series-append i p g (op ∷ a) b = series-append i p (changed i p op g) a b

-- A series of `n` counts: none, or their number
abbrev pub shown : ℕ → Option ℤ
shown zero = none
shown (suc n) = some (pos (suc n))

increment-shown : (v : ℕ) → some (increment (or_zero (shown v))) ≡ shown (suc v)
increment-shown zero = refl
increment-shown (suc n) = ap (λ x. some (pos x)) (omega arith)

decrement-suc : (v n : ℕ) → decrement (pos (v + suc n)) ≡ pos (v + n)
decrement-suc v n = rw (add-suc v n) refl

shown-mul : (n m : ℕ) → shown (suc n * suc m) ≡ some (pos (suc n * suc m))
shown-mul n m = rw (suc-mul n (suc m), add-suc (n * suc m) m) refl

module _ (i : String) (p : Platform) where
  pub inc-shown :
      (v : ℕ) (ps : List Platform)
      → series i p (shown v) (inc_ops i ps) ≡ shown (v + multiplicity p ps)
  unfolding series inc_ops
  inc-shown v [] = ap shown (omega arith)
  inc-shown v (q ∷ qs) = elim (Bool-cases (same_platform p q)) [
    | inl same ↦
        rw (series, eq_refl i, same, increment-shown v)
          (inc-shown (suc v) qs ∙ ap shown (omega arith))
    | inr other ↦ rw (series, eq_refl i, other) (inc-shown v qs)
  ]

  pub dec-shown :
      (v : ℕ) (ps : List Platform)
      → series i p (some (pos (v + multiplicity p ps))) (dec_ops i false ps) ≡ some (pos v)
  unfolding series dec_ops
  dec-shown v [] = ap (λ x. some (pos x)) (omega arith)
  dec-shown v (q ∷ qs) = elim (Bool-cases (same_platform p q)) [
    | inl same ↦ rw (series, eq_refl i, same, decrement-suc v (multiplicity p qs)) (dec-shown v qs)
    | inr other ↦ rw (series, eq_refl i, other) (dec-shown v qs)
  ]

  -- A platform that does not stand in the list
  dec-absent :
      (ps : List Platform) → multiplicity p ps ≡ 0 → series i p none (dec_ops i false ps) ≡ none
  unfolding series dec_ops
  dec-absent [] h = refl
  dec-absent (q ∷ qs) h = elim (Bool-cases (same_platform p q)) [
    | inl same ↦ absurd (ground (arith, same))
    | inr other ↦ rw (series, eq_refl i, other) (dec-absent qs (ground (arith, other)))
  ]

  gone : (qs : List Platform) → series i p none (dec_ops i true qs) ≡ none
  unfolding series dec_ops
  gone [] = refl
  gone (q ∷ qs) = elim (Bool-cases (same_platform p q)) [
    | inl same ↦ rw (series, eq_refl i, same) (gone qs)
    | inr other ↦ rw (series, eq_refl i, other) (gone qs)
  ]

  pub dec-last :
      (ps : List Platform) → series i p (shown (multiplicity p ps)) (dec_ops i true ps) ≡ none
  unfolding series dec_ops
  dec-last [] = refl
  dec-last (q ∷ qs) = elim (Bool-cases (same_platform p q)) [
    | inl same ↦ rw (series, eq_refl i, same) (gone qs)
    | inr other ↦ rw (series, eq_refl i, other) (dec-last qs)
  ]

  -- One count of the image's platforms goes, and it is not the last.
  pub dec-next :
      (n : ℕ) (ps : List Platform)
      → series i p (shown (suc (suc n) * multiplicity p ps)) (dec_ops i false ps)
        ≡ shown (suc n * multiplicity p ps)
  dec-next n ps = by_number (multiplicity p ps) refl
    where
      by_number :
          (m : ℕ)
          → multiplicity p ps ≡ m
          → series i p (shown (suc (suc n) * m)) (dec_ops i false ps) ≡ shown (suc n * m)
      by_number zero e = rw (mul-zero (suc (suc n)), mul-zero (suc n)) (dec-absent ps e)
      by_number (suc m) e =
          let number = suc n * suc m in
          ap (λ g. series i p g (dec_ops i false ps))
            (shown-mul (suc n) m
              ∙ ap (λ x. some (pos x)) (suc-mul (suc n) (suc m) ∙ ap (λ x. number + x) (sym e)))
          ∙ (dec-shown number ps ∙ sym (shown-mul n m))

-- The changes for another image
module _ (i j : String) (p : Platform) (other : (i == j) ≡ false) where
  pub other_inc : (g : Option ℤ) (ps : List Platform) → series i p g (inc_ops j ps) ≡ g
  unfolding series inc_ops
  other_inc g [] = refl
  other_inc g (q ∷ qs) = rw (series, other) (other_inc g qs)

  pub other_dec :
      (g : Option ℤ) (last : Bool) (ps : List Platform) → series i p g (dec_ops j last ps) ≡ g
  unfolding series dec_ops
  other_dec g last [] = refl
  other_dec g true (q ∷ qs) = rw (series, other) (other_dec g true qs)
  other_dec g false (q ∷ qs) = rw (series, other) (other_dec g false qs)

  pub other_stale :
      (g : Option ℤ) (new olds : List Platform) → series i p g (stale_ops j new olds) ≡ g
  unfolding series stale_ops
  other_stale g new [] = refl
  other_stale g new (q ∷ qs) = elim (Bool-cases (any (same_platform q) new)) [
    | inl kept ↦ rw kept (other_stale g new qs)
    | inr stale ↦ rw (stale, series, other) (other_stale g new qs)
  ]

same_platform_refl : (p : Platform) → same_platform p p ≡ true
same_platform_refl p = rw (eq_refl p.os, eq_refl p.architecture, eq_refl p.variant)

-- No platform of an image is stale where its list is the one of before.
pub stale-within :
    (image : String) (before ps : List Platform) → stale_ops image (before ++ ps) ps ≡ []
unfolding stale_ops
stale-within image before [] = refl
stale-within image before (q ∷ qs) =
    rw
      (
        any-append (same_platform q) before (q ∷ qs),
        same_platform_refl q,
        or-true (any (same_platform q) before),
      )
      (subst (λ new. stale_ops image new qs ≡ []) (append_assoc before (q ∷ []) qs)
        (stale-within image (before ++ q ∷ []) qs))

-- ===== src/Controller/Gauge/Changes.antt =====
-- pkg/controllers/pod.go: the changes of the gauge that one increment or one decrement of the
-- statistics makes, to a series of the same image and of another one.
use noe.Common.{
  ℕ, ◌+◌, Bool, false, String, Option, none, some, List, [], ◌++◌, append-nil, ◌≡◌, refl, ◌∙◌, ap,
  ◌==◌,
}
use noe.Hook.{Platform}
use noe.Controller.{ℤ, ImageUsage, GaugeOp}
use noe.Controller.Statistics.{stale_before, inc_ops, dec_ops}
use noe.Controller.Gauge.{
  series, multiplicity, shown, series-append, inc-shown, other_inc, other_dec, other_stale,
}

-- The changes of one operation, before and after its counts.
module _ (i : String) (p : Platform) (ops : List GaugeOp) where
  pub quiet :
      (extra : List GaugeOp) → extra ≡ [] → series i p none (ops ++ extra) ≡ series i p none ops
  quiet extra e = ap (λ s. series i p none (ops ++ s)) e ∙ ap (series i p none) (append-nil ops)

  pub then-inc :
      (v : ℕ) (ps : List Platform)
      → series i p none ops ≡ shown v
      → series i p none (ops ++ inc_ops i ps) ≡ shown (v + multiplicity p ps)
  then-inc v ps h =
      series-append i p none ops (inc_ops i ps)
      ∙ (ap (λ g. series i p g (inc_ops i ps)) h ∙ inc-shown i p v ps)

  pub then-dec :
      (v : ℕ) (last : Bool) (ps : List Platform)
      → series i p none ops ≡ shown v
      → series i p none (ops ++ dec_ops i last ps) ≡ series i p (shown v) (dec_ops i last ps)
  then-dec v last ps h =
      series-append i p none ops (dec_ops i last ps) ∙ ap (λ g. series i p g (dec_ops i last ps)) h

  -- Both operations leave the series of another image.
  module _ (j : String) (other : (i == j) ≡ false) where
    other_before :
        (g : Option ℤ) (found : Option ImageUsage) (ps : List Platform)
        → series i p g (stale_before j found ps) ≡ g
    unfolding stale_before series
    other_before g none ps = refl
    other_before g (some u) ps = other_stale i j p other g ps u.platforms

    pub other_increment :
        (found : Option ImageUsage) (ps : List Platform)
        → series i p none ((ops ++ stale_before j found ps) ++ inc_ops j ps) ≡ series i p none ops
    other_increment found ps =
        series-append i p none (ops ++ stale_before j found ps) (inc_ops j ps)
        ∙ (other_inc i j p other _ ps
            ∙ (series-append i p none ops (stale_before j found ps) ∙ other_before _ found ps))

    pub other_decrement :
        (last : Bool) (ps : List Platform)
        → series i p none (ops ++ dec_ops j last ps) ≡ series i p none ops
    other_decrement last ps =
        series-append i p none ops (dec_ops j last ps) ∙ other_dec i j p other _ last ps

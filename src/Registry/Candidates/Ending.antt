-- ===== src/Registry/Candidates/Ending.antt =====
-- When the goroutine that sends the candidates ends.
use mathlib.Core.Bool.{false≢true}
use noe.Common.{
  Bool, true, false, ◌&&◌, not, String, Option, List, [], ◌∷◌, ◌≡◌, ◌↔◌, refl, sym, ap, ◌∙◌, arith,
  is_empty, if◌then◌else◌, Bool-cases, inl, inr,
}
use noe.Hook.{Platform}
use noe.Registry.{AuthenticationToken}
use noe.Registry.Candidates.{
  Source, Receiver, receiving, trying, cancelled, Exchange, is_accepted, started, IsEnded,
  Exchanges, hands, refuses, accepts, runs, runs_cancelled, gives_up, Exchanged, stays, goes, scan,
  is_stranded,
}

module _ (attempt : AuthenticationToken → List Platform × Option String) where
  strands : Receiver → List AuthenticationToken → Bool → List Source → Bool
  strands receiving cs sel ss = scan attempt cs sel (is_stranded attempt ss)
  strands (trying c) cs sel ss =
      if is_accepted attempt c
      then not sel && not (is_empty cs)
      else scan attempt cs sel (is_stranded attempt ss)
  strands cancelled cs sel ss = not sel && not (is_empty cs)

  -- A plugin's candidate is left to send and ListArchs has returned, or it will be so.
  will_strand : Exchange → Bool
  unfolding strands
  will_strand s = strands s.receiver s.sending s.selecting s.later

  will_strand-Exchanges :
      {s t : Exchange} → Exchanges attempt s t → will_strand s ≡ true → will_strand t ≡ true
  unfolding will_strand scan is_stranded
  will_strand-Exchanges (hands c cs sel ss) h = h
  will_strand-Exchanges (refuses c cs sel ss fails) h = ground (arith, fails)
  will_strand-Exchanges (accepts c cs sel ss works) h = ground (arith, works)
  will_strand-Exchanges (runs sel s ss receiving fresh) h = h
  will_strand-Exchanges (runs sel s ss (trying c) fresh) h = ground (arith, h)
  will_strand-Exchanges (runs sel s ss cancelled fresh) h = ground (arith, fresh)
  will_strand-Exchanges (runs_cancelled sel s ss) h = ground (arith, h)
  will_strand-Exchanges (gives_up c cs ss) h = ground (arith, h)

  will_strand-Exchanged :
      {s t : Exchange} → Exchanged attempt s t → will_strand s ≡ true → will_strand t ≡ true
  will_strand-Exchanged stays h = h
  will_strand-Exchanged (goes step rest) h =
      will_strand-Exchanged rest (will_strand-Exchanges step h)

  strands_none : (r : Receiver) (sel : Bool) → strands r [] sel [] ≡ false
  unfolding strands scan is_stranded
  strands_none receiving sel = refl
  strands_none (trying c) sel = ground arith
  strands_none cancelled sel = ground arith

  ended_not-will_strand : (s : Exchange) → IsEnded s → will_strand s ≡ false
  unfolding will_strand
  ended_not-will_strand s (e, d) =
      ap (λ cs. strands s.receiver cs s.selecting s.later) e
      ∙ ap (λ ss. strands s.receiver [] s.selecting ss) d
      ∙ strands_none s.receiver s.selecting

  abbrev Ends : Exchange → Type 0
  Ends s = (t : Exchange) × (Exchanged attempt s t × IsEnded t)

  step_then : {s t : Exchange} → Exchanges attempt s t → Ends t → Ends s
  step_then step (u, (run, ended)) = (u, (goes step run, ended))

  -- After the cancellation a source that runs sends nothing, and gives up.
  give_up_source :
      (sel : Bool) (cs : List AuthenticationToken) (ss : List Source)
      → ((now : Bool)
          → Ends (record { sending = []; selecting = now; later = ss; receiver = cancelled }))
      → Ends (record {
        sending = if sel then cs else [];
        selecting = sel;
        later = ss;
        receiver = cancelled;
      })
  give_up_source false cs ss rest = rest false
  give_up_source true [] ss rest = rest true
  give_up_source true (c ∷ cs) ss rest = step_then (gives_up c cs ss) (rest true)

  give_up :
      (ss : List Source) (sel : Bool)
      → Ends (record { sending = []; selecting = sel; later = ss; receiver = cancelled })
  give_up [] sel = (
    record { sending = []; selecting = sel; later = []; receiver = cancelled },
    (stays, (refl, refl)),
  )
  give_up (s ∷ ss) sel =
      step_then (runs_cancelled sel s ss) (give_up_source s.selects s.candidates ss (give_up ss))

  -- So does the source that is sending, if its sends are selected or there are none.
  give_up_first :
      (cs : List AuthenticationToken) (sel : Bool) (ss : List Source)
      → (not sel && not (is_empty cs)) ≡ false
      → Ends (record { sending = cs; selecting = sel; later = ss; receiver = cancelled })
  give_up_first [] sel ss h = give_up ss sel
  give_up_first (c ∷ cs) true ss h = step_then (gives_up c cs ss) (give_up ss true)
  give_up_first (c ∷ cs) false ss h = ground arith

  -- Each candidate of a source is tried before the next source runs.
  send_source :
      (cs : List AuthenticationToken) (sel : Bool) (ss : List Source)
      → (is_stranded attempt ss ≡ false
          → Ends (record { sending = []; selecting = sel; later = ss; receiver = receiving }))
      → scan attempt cs sel (is_stranded attempt ss) ≡ false
      → Ends (record { sending = cs; selecting = sel; later = ss; receiver = receiving })
  unfolding scan
  send_source [] sel ss rest h = rest h
  send_source (c ∷ cs) sel ss rest h = elim (Bool-cases (is_accepted attempt c)) [
    | inl works ↦
        step_then (hands c cs sel ss) (
          step_then (accepts c cs sel ss works)
            (give_up_first cs sel ss (ground (arith, works, h))))
    | inr fails ↦ step_then (hands c cs sel ss) (
        step_then (refuses c cs sel ss fails)
          (send_source cs sel ss rest (ground (arith, fails, h))))
  ]

  send_all :
      (ss : List Source) (sel : Bool)
      → is_stranded attempt ss ≡ false
      → Ends (record { sending = []; selecting = sel; later = ss; receiver = receiving })
  unfolding is_stranded
  send_all [] sel h = (
    record { sending = []; selecting = sel; later = []; receiver = receiving },
    (stays, (refl, refl)),
  )
  send_all (s ∷ ss) sel h =
      step_then (runs sel s ss receiving refl)
        (send_source s.candidates s.selects ss (send_all ss s.selects) h)

  -- The goroutine of ListArchs that sends the candidates can come to its end exactly if the first
  -- candidate for which listArchsWithAuth returns no error, where there is one, is not one of a
  -- kubelet plugin's response that has another candidate behind it.
  pub sends_end_iff :
      (sources : List Source)
      → ((t : Exchange) × (Exchanged attempt (started sources) t × IsEnded t))
        ↔ (is_stranded attempt sources ≡ false)
  unfolding will_strand strands scan
  sends_end_iff sources = (
    λ (t, (run, ended)). elim (Bool-cases (is_stranded attempt sources)) [
      | inl stranded ↦
          absurd
            (false≢true (sym (ended_not-will_strand t ended) ∙ will_strand-Exchanged run stranded))
      | inr free ↦ free
    ],
    send_all sources true,
  )

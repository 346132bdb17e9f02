-- ===== src/Registry/Candidates.antt =====
-- pkg/registry: the goroutine of ListArchs (registry.go) that runs the authenticators, and the loop
-- that receives from it over an unbuffered channel. A send is selected against ctx.Done, except for
-- that of a kubelet plugin's candidates (kubelet_credentials.go). A plugin is run by
-- exec.CommandContext, which runs nothing in a cancelled context.
pub mod Ending
mod Examples
use noe.Common.{
  Bool, true, false, ◌&&◌, not, String, Option, List, [], ◌∷◌, ◌≡◌, is_empty, is_some,
  if◌then◌else◌,
}
use noe.Hook.{Platform}
use noe.Registry.{AuthenticationToken}

-- An authenticator, or one plugin of the kubelet's: whether its sends are in a select, and its
-- candidates
pub record Source : Type 0 where
  pub selects : Bool
  pub candidates : List AuthenticationToken

-- The loop over the candidates: it waits, it is in listArchsWithAuth, or ListArchs has returned and
-- its deferred `cancel` was run.
pub data Receiver : Type 0 where
  receiving : Receiver
  trying : AuthenticationToken → Receiver
  cancelled : Receiver

-- The goroutine has these candidates of its source left to send, and then these sources to run.
pub record Exchange : Type 0 where
  pub sending : List AuthenticationToken
  pub selecting : Bool
  pub later : List Source
  pub receiver : Receiver

-- listArchsWithAuth returns no error for the candidate.
unfoldable pub is_accepted :
    (AuthenticationToken → List Platform × Option String) → AuthenticationToken → Bool
is_accepted attempt c = not (is_some (attempt c).1)

abbrev pub is_cancelled : Receiver → Bool
is_cancelled receiving = false
is_cancelled (trying c) = false
is_cancelled cancelled = true

-- ListArchs starts the goroutine.
abbrev pub started : List Source → Exchange
started sources = record { sending = []; selecting = true; later = sources; receiver = receiving }

-- The goroutine closes the channel.
abbrev pub IsEnded : Exchange → Type 0
IsEnded s = (s.sending ≡ []) × (s.later ≡ [])

module _ (attempt : AuthenticationToken → List Platform × Option String) where
  pub data Exchanges : Exchange → Exchange → Type 0 where
    -- A candidate is sent and received.
    hands :
        (c : AuthenticationToken) (cs : List AuthenticationToken) (sel : Bool) (ss : List Source)
        → Exchanges
            (record { sending = c ∷ cs; selecting = sel; later = ss; receiver = receiving })
            (record { sending = cs; selecting = sel; later = ss; receiver = trying c })
    -- listArchsWithAuth returns an error.
    refuses :
        (c : AuthenticationToken) (cs : List AuthenticationToken) (sel : Bool) (ss : List Source)
        → is_accepted attempt c ≡ false
        → Exchanges
            (record { sending = cs; selecting = sel; later = ss; receiver = trying c })
            (record { sending = cs; selecting = sel; later = ss; receiver = receiving })
    -- It returns platforms, and ListArchs returns them.
    accepts :
        (c : AuthenticationToken) (cs : List AuthenticationToken) (sel : Bool) (ss : List Source)
        → is_accepted attempt c ≡ true
        → Exchanges
            (record { sending = cs; selecting = sel; later = ss; receiver = trying c })
            (record { sending = cs; selecting = sel; later = ss; receiver = cancelled })
    -- The next source runs, also while listArchsWithAuth does.
    runs :
        (sel : Bool) (s : Source) (ss : List Source) (r : Receiver)
        → is_cancelled r ≡ false
        → Exchanges
            (record { sending = []; selecting = sel; later = s ∷ ss; receiver = r })
            (record { sending = s.candidates; selecting = s.selects; later = ss; receiver = r })
    -- After the cancellation a plugin is not run, and another authenticator finds its candidates.
    runs_cancelled :
        (sel : Bool) (s : Source) (ss : List Source)
        → Exchanges
            (record { sending = []; selecting = sel; later = s ∷ ss; receiver = cancelled })
            (record {
              sending = if s.selects then s.candidates else [];
              selecting = s.selects;
              later = ss;
              receiver = cancelled;
            })
    -- An authenticator sees ctx.Done and returns.
    gives_up :
        (c : AuthenticationToken) (cs : List AuthenticationToken) (ss : List Source)
        → Exchanges
            (record { sending = c ∷ cs; selecting = true; later = ss; receiver = cancelled })
            (record { sending = []; selecting = true; later = ss; receiver = cancelled })

  pub data Exchanged : Exchange → Exchange → Type 0 where
    stays : {s : Exchange} → Exchanged s s
    goes : {s t u : Exchange} → Exchanges s t → Exchanged t u → Exchanged s u

  -- Whether the first candidate that is accepted is a plugin's, and not the last of its response
  unfoldable pub scan : List AuthenticationToken → Bool → Bool → Bool
  unfolding is_accepted
  scan [] sel rest = rest
  scan (c ∷ cs) sel rest =
      let others = scan cs sel rest in
      if is_accepted attempt c then not sel && not (is_empty cs) else others

  unfoldable pub is_stranded : List Source → Bool
  unfolding scan
  is_stranded [] = false
  is_stranded (s ∷ ss) = let rest = is_stranded ss in scan s.candidates s.selects rest

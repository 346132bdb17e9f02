-- ===== src/Registry/Candidates/Examples.antt =====
-- The candidates of a kubelet plugin whose response has two matching keys.
use noe.Common.{String, Option, none, List, [], ◌∷◌, true, false, ◌≡◌, ◌↔◌, refl}
use noe.Hook.{Platform}
use noe.Registry.{AuthenticationToken}
use noe.Registry.Candidates.{
  Source, Exchange, started, IsEnded, Exchanged, is_stranded, scan, is_accepted,
}
use noe.Registry.Candidates.Ending.{sends_end_iff}

abbrev key_of : String → AuthenticationToken
key_of token = record { kind = "Basic"; token = token; provider = "kubelet" }

abbrev plugin : List Source
plugin = record { selects = false; candidates = key_of "a" ∷ key_of "b" ∷ [] } ∷ []

-- Every candidate is good.
abbrev all_good : AuthenticationToken → List Platform × Option String
all_good c = ([], none)

sends_end_iff_example :
    ((t : Exchange) × (Exchanged all_good (started plugin) t × IsEnded t))
    ↔ (is_stranded all_good plugin ≡ false)
sends_end_iff_example = sends_end_iff all_good plugin

-- The goroutine does not end.
plugin_strands : is_stranded all_good plugin ≡ true
unfolding is_stranded scan is_accepted
plugin_strands = refl

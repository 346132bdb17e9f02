-- ===== src/Registry/RateLimits/Documented.antt =====
-- The gauges after a response with the headers of Docker Hub.
use noe.Common.{
  true, false, String, Option, some, [], ◌∷◌, ◌≡◌, ◌≢◌, refl, arith, ◌==◌, eq_iff, if◌then◌else◌,
}
use noe.Common.Maps.{Map, lookup, lookup-insert}
use noe.Common.Strings.Parts.{split, lacks, split-lacks, split-append_one, lacks-append}
use noe.Hook.Events.{◌<>◌}
use noe.Registry.Patterns.{first_part, second_part}
use noe.Registry.RateLimits.{
  window_of, get_rate_limit_headers, Gauges, set_parsed, set_gauge, update_remaining_rate_limits,
}

-- A header of Docker Hub, such as 83;w=21600
abbrev pub quota : String → String → String
quota count window = count <> (";" <> ("w" <> ("=" <> window)))

-- The parts of the header
quota-parts :
    (count window : String)
    → lacks b';' count ≡ true
    → lacks b';' window ≡ true
    → split b';' (quota count window) ≡ count ∷ ("w" <> ("=" <> window)) ∷ []
unfolding lacks
quota-parts count window no_semicolon one_part =
    let whole : lacks b';' ("w" <> ("=" <> window)) ≡ true =
      rw (lacks-append b';' "w" ("=" <> window), lacks-append b';' "=" window, one_part) refl in
    rw
      (
        split-append_one b';' _ count ("w" <> ("=" <> window)) no_semicolon refl,
        split-lacks b';' ("w" <> ("=" <> window)) whole,
      )
      refl

quota-window :
    (count window : String)
    → lacks b'=' window ≡ true
    → window_of (count ∷ ("w" <> ("=" <> window)) ∷ []) ≡ window
unfolding window_of second_part lacks
quota-window count window no_equals =
    rw (split-append_one b'=' _ "w" window refl refl, split-lacks b'=' window no_equals) refl

-- What a gauge shows after a number was set
lookup-set_gauge :
    {F : Type 0} (parse_float : String → Option F) (registry other text : String) (v : F)
    (gauge : Map F)
    → text ≢ ""
    → parse_float text ≡ some v
    → lookup other (set_gauge parse_float registry text gauge)
      ≡ (if registry == other then some v else lookup other gauge)
unfolding set_gauge set_parsed
lookup-set_gauge parse_float registry other text v gauge given parsed =
    let h : (text == "") ≡ false = ground (arith, eq_iff text "") in
    rw (h, parsed) (lookup-insert registry other v gauge)

-- After a response with the headers of Docker Hub, a count, a semicolon, w= and the seconds of the
-- window, with the same window in both and numbers that are read, the three gauges show these
-- numbers for the registry, and for every other one what they showed before.
pub update_remaining_rate_limits-documented :
    {F : Type 0} (parse_float : String → Option F) (registry other remaining limit window : String)
    (a b c : F) (g : Gauges F)
    → lacks b';' remaining ≡ true
    → lacks b';' limit ≡ true
    → lacks b';' window ≡ true
    → lacks b'=' window ≡ true
    → remaining ≢ ""
    → limit ≢ ""
    → window ≢ ""
    → parse_float remaining ≡ some a
    → parse_float limit ≡ some b
    → parse_float window ≡ some c
    → (let after =
          update_remaining_rate_limits parse_float registry
            (get_rate_limit_headers (quota remaining window) (quota limit window))
            g in
        (lookup other after.rate_limit_remaining
          ≡ (if registry == other then some a else lookup other g.rate_limit_remaining))
        × ((lookup other after.rate_limit_limit
              ≡ (if registry == other then some b else lookup other g.rate_limit_limit))
            × (lookup other after.rate_limit_window
                ≡ (if registry == other then some c else lookup other g.rate_limit_window))))
unfolding update_remaining_rate_limits get_rate_limit_headers first_part
update_remaining_rate_limits-documented parse_float registry other remaining limit window a b c g r
      l w e given_r given_l given_w pr pl pw =
    let h : (window == "") ≡ false = ground (arith, eq_iff window "") in
    rw
      (
        quota-parts remaining window r w,
        quota-parts limit window l w,
        quota-window remaining window e,
        h,
      )
      (
        lookup-set_gauge parse_float registry other remaining a g.rate_limit_remaining given_r pr,
        (
          lookup-set_gauge parse_float registry other limit b g.rate_limit_limit given_l pl,
          lookup-set_gauge parse_float registry other window c g.rate_limit_window given_w pw,
        ),
      )

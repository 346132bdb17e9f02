-- ===== src/Hook/Options.antt =====
-- pkg/arch/hook.go: NewHandler, its options and ParseMatchNodeLabels. The options for the metrics and
-- the decoder set nothing that the decisions read.
use noe.Common.{String, List, [], ◌∷◌}
use noe.Common.Strings.Parts.{split}
use noe.Hook.{Handler}

-- HandlerOption
abbrev pub HandlerOption : Type 0
HandlerOption = Handler → Handler

unfoldable pub apply_options : List HandlerOption → Handler → Handler
apply_options [] h = h
apply_options (opt ∷ opts) h = apply_options opts (opt h)

-- NewHandler
unfoldable pub new_handler : List HandlerOption → Handler
unfolding apply_options
new_handler opts = apply_options opts (record {
  match_node_labels = [];
  preferred_architecture = "";
  schedulable_architectures = [];
  system_os = "";
})

-- WithArchitecture
unfoldable pub with_architecture : String → HandlerOption
with_architecture arch h = record h { preferred_architecture = arch }

-- WithSchedulableArchitectures
unfoldable pub with_schedulable_architectures : List String → HandlerOption
with_schedulable_architectures archs h = record h { schedulable_architectures = archs }

-- WithOS
unfoldable pub with_os : String → HandlerOption
with_os os h = record h { system_os = os }

-- WithMatchNodeLabels
unfoldable pub with_match_node_labels : List String → HandlerOption
with_match_node_labels labels h = record h { match_node_labels = labels }

-- ParseMatchNodeLabels
unfoldable pub parse_match_node_labels : String → List String
parse_match_node_labels labels = split b',' labels

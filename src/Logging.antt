-- ===== src/Logging.antt =====
-- pkg/log: the fields of a message and of a context (log.go), and the sink of logr (logr.go). The levels of
-- logrus and fmt.Sprintf are parameters.
pub mod Fields
pub mod Sinks
mod Examples
use noe.Common.{
  ℕ, Bool, false, String, Option, none, some, List, [], ◌∷◌, ◌++◌, ◌==◌, leb, nat_eq, if◌then◌else◌,
}
use noe.Common.Maps.{Map, lookup, insert}
use noe.Hook.Events.{◌<>◌}

-- A value of type interface{}: a string, or another one
pub data Value (A : Type 0) : Type 0 where
  text : String → Value A
  other : A → Value A

-- for k, v := range f { fields[k] = v }
unfoldable pub merge_into {ℓ} : {V : Type ℓ} → Map V → Map V → Map V
merge_into fields [] = fields
merge_into fields ((k, v) ∷ more) = merge_into (insert k v fields) more

unfoldable pub merge_list {ℓ} : {V : Type ℓ} → Map V → List (Map V) → Map V
unfolding merge_into
merge_list fields [] = fields
merge_list fields (f ∷ fs) = merge_list (merge_into fields f) fs

-- mergeFields
unfoldable pub merge_fields {ℓ} : {V : Type ℓ} → List (Map V) → Map V
unfolding merge_list
merge_fields fs = merge_list [] fs

-- getLogFieldsContext; a context is what it has at logContextKey.
unfoldable pub get_log_fields_context {ℓ} : {V : Type ℓ} → Option (Map V) → Map V
get_log_fields_context none = []
get_log_fields_context (some fields) = fields

-- AddLogFieldsToContext
unfoldable pub add_log_fields_to_context {ℓ} :
    {V : Type ℓ} → Option (Map V) → Map V → Option (Map V)
unfolding get_log_fields_context merge_fields
add_log_fields_to_context ctx fields =
    some (merge_fields (get_log_fields_context ctx ∷ fields ∷ []))

-- (logFieldsHook).Fire: the data of an entry with a context
unfoldable pub fire {ℓ} : {V : Type ℓ} → Option (Map V) → Map V → Map V
unfolding get_log_fields_context merge_fields
fire ctx data_fields = merge_fields (get_log_fields_context ctx ∷ data_fields ∷ [])

-- logrusLogger: the data of its entry, the level of the logger, none for a nil one, and its own level
pub record LogrusLogger (A : Type 0) : Type 0 where
  pub fields : Map (Value A)
  pub logger_level : Option ℕ
  pub level : ℕ

-- NewLogr, on the level of the logger and InfoLevel; a new entry has no fields.
unfoldable pub new_logr : {A : Type 0} → Option ℕ → ℕ → LogrusLogger A
new_logr limit info_level = record { fields = []; logger_level = limit; level = info_level }

-- A message that is written
pub record Message (A : Type 0) : Type 0 where
  pub level : ℕ
  pub text : String
  pub fields : Map (Value A)

-- The levels of logrus
pub record Levels : Type 0 where
  pub error : ℕ
  pub warn : ℕ
  pub info : ℕ
  pub debug : ℕ
  pub trace : ℕ

-- logrLevelToLogrus, for the levels of logr, which start at 0
unfoldable pub logr_level_to_logrus : Levels → ℕ → ℕ
logr_level_to_logrus levels level =
    if nat_eq level 0
    then levels.error
    else if nat_eq level 1
    then levels.warn
    else if nat_eq level 2
    then levels.info
    else if nat_eq level 3
    then levels.debug
    else levels.trace

module _ {A : Type 0} (levels : Levels) (sprint : Value A → String) where
  -- The key that a value becomes
  unfoldable pub key_of : Value A → String
  key_of (text s) = s
  key_of (other a) = sprint (other a)

  -- The loop of logrusWithValues with its variables `key`, "" between the pairs, and `fields`
  unfoldable pub pair_fields : String → Map (Value A) → List (Value A) → Map (Value A)
  unfolding key_of
  pair_fields key fields [] = fields
  pair_fields key fields (v ∷ values) =
      let paired = pair_fields "" (insert key v fields) values in
      let keyed = pair_fields (key_of v) fields values in if key == "" then keyed else paired

  -- logrusWithValues; logrus adds the fields to those of the entry.
  unfoldable pub logrus_with_values : LogrusLogger A → List (Value A) → Map (Value A)
  unfolding pair_fields merge_fields
  logrus_with_values l values = merge_fields (l.fields ∷ pair_fields "" [] values ∷ [])

  -- WithValues
  unfoldable pub with_values : LogrusLogger A → List (Value A) → LogrusLogger A
  unfolding logrus_with_values
  with_values l values = record l { fields = logrus_with_values l values }

  -- The keys and the values of a map, as WithValues takes them
  unfoldable pub listed_fields : Map (Value A) → List (Value A)
  listed_fields [] = []
  listed_fields ((k, v) ∷ more) = text k ∷ v ∷ listed_fields more

  -- ContextualizeLogr, on the sink of the logger
  unfoldable pub contextualize_logr : LogrusLogger A → Option (Map (Value A)) → LogrusLogger A
  unfolding with_values get_log_fields_context listed_fields
  contextualize_logr l ctx = with_values l (listed_fields (get_log_fields_context ctx))

  unfoldable pub named : LogrusLogger A → String → Option (Value A) → LogrusLogger A
  unfolding with_values
  named l name none = with_values l (text "name" ∷ text name ∷ [])
  named l name (some n) = with_values l (text "name" ∷ text (sprint n <> ("." <> name)) ∷ [])

  -- WithName
  unfoldable pub with_name : LogrusLogger A → String → LogrusLogger A
  unfolding named
  with_name l name = named l name (lookup "name" l.fields)

  unfoldable pub enabled_at : Option ℕ → ℕ → Bool
  enabled_at none level = false
  enabled_at (some limit) level = leb level limit

  -- Enabled
  unfoldable pub enabled : LogrusLogger A → ℕ → Bool
  unfolding logr_level_to_logrus enabled_at
  enabled l level = enabled_at l.logger_level (logr_level_to_logrus levels level)

  -- Info: what it writes
  unfoldable pub info : LogrusLogger A → ℕ → String → List (Value A) → List (Message A)
  unfolding enabled logrus_with_values
  info l level msg values =
      if enabled l level
      then record {
        level = logr_level_to_logrus levels level;
        text = msg;
        fields = logrus_with_values l values;
      }
        ∷ []
      else []

  -- Error
  unfoldable pub error_message :
      LogrusLogger A → Value A → String → List (Value A) → List (Message A)
  unfolding info
  error_message l err msg values = info l 0 msg (values ++ text "error" ∷ err ∷ [])

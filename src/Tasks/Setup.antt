-- ===== src/Tasks/Setup.antt =====
-- `TasksClient.check_setup`: whether a channel can be used, by a look-up of its thread.
pub mod Accessible
use deixic_python.Base.{
  ℕ, String, Bool, true, false, not, ◌||◌, ◌&&◌, Option, none, some, List, [], ◌∷◌, text_eq, truthy,
  if◌then◌else◌, Result, ok, err,
}
use deixic_python.Value.{Value}
use deixic_python.Errors.{
  DeixicError, plain_error, Kind, authentication, authorization, not_found, protocol,
}
use deixic_python.Tasks.Types.{
  Raised, deixic, deadline_reached, callback_failed, value_error, foreign,
}
use deixic_python.Tasks.Checks.{identity}
use deixic_python.Tasks.Platform.{Call}

-- `pb.AvailableModel`, `pb.ModelSelection`, `pb.SetupReadiness`, the fields that the source reads
pub record AvailableModel : Type 0 where
  pub provider : String
  pub model : String
  pub ready : Bool

pub record ModelSelection : Type 0 where
  pub provider : String
  pub model : String

pub record SetupReadiness : Type 0 where
  pub accessible : Bool
  pub missing_requirements : List String
  pub default_model : Option AvailableModel
  pub selection : Option ModelSelection
  pub available_models : List AvailableModel

-- `pb.GetThreadResponse`, with its `setup`, none where the field is unset
pub record SetupThread : Type 0 where
  pub thread_id : String
  pub setup : Option SetupReadiness

pub data SetupStatus : Type 0 where
  accessible needs_attention failed : SetupStatus

-- `SetupCheck`
pub record SetupCheck : Type 0 where
  pub status : SetupStatus
  pub channel_id : String
  pub capabilities : Option SetupReadiness
  pub next_action : String
  pub error : Option DeixicError
  pub model_selection : Option ModelSelection
  pub default_model : Option AvailableModel
  pub selected_model : Option AvailableModel

-- `thread.setup`: the message with nothing set where the field is unset.
abbrev pub setup_of : Option SetupReadiness → SetupReadiness
setup_of (some s) = s
setup_of none = record {
  accessible = false;
  missing_requirements = [];
  default_model = none;
  selection = none;
  available_models = [];
}

abbrev has_items : List String → Bool
has_items [] = false
has_items (x ∷ xs) = true

unfoldable pub is_missing : SetupReadiness → Bool
is_missing s = not s.accessible || has_items s.missing_requirements

-- The first model in the catalog that the selection names.
unfoldable pub find_model : ModelSelection → List AvailableModel → Option AvailableModel
find_model s [] = none
find_model s (m ∷ ms) =
    if text_eq m.provider s.provider && text_eq m.model s.model then some m else find_model s ms

-- `selection is not None and (selection.provider or selection.model)`
abbrev pub is_explicit : Option ModelSelection → Bool
is_explicit none = false
is_explicit (some s) = truthy s.provider || truthy s.model

abbrev named_model : Option ModelSelection → List AvailableModel → Option AvailableModel
named_model none ms = none
named_model (some s) ms = find_model s ms

unfoldable pub selected_model : SetupReadiness → Option AvailableModel
selected_model s =
    if is_explicit s.selection then named_model s.selection s.available_models else s.default_model

abbrev pub is_ready : Option AvailableModel → Bool
is_ready none = false
is_ready (some m) = m.ready

-- The check behind a look-up that returned the channel's thread.
unfoldable pub found_setup : String → Option SetupReadiness → SetupCheck
found_setup channel_id setup =
    let s = setup_of setup in
    let missing = is_missing s in
    let unavailable_model = not (is_ready (selected_model s)) in
    record {
      status =
          if missing || unavailable_model
          then SetupStatus.needs_attention
          else SetupStatus.accessible;
      channel_id = channel_id;
      capabilities = setup;
      next_action =
          if missing
          then "Resolve the reported workspace prerequisites"
          else if unavailable_model
          then "Check the reported model availability in workspace settings"
          else "Submit a task to check execution and write access";
      error = none;
      model_selection = s.selection;
      default_model = s.default_model;
      selected_model = selected_model s;
    }

-- The advice for the kind of an error.
abbrev pub advice : Kind → String
advice Kind.authentication = "Replace or refresh the expired or invalid credential"
advice Kind.authorization = "Check the credential's organization and workspace read grants"
advice Kind.not_found = "Check the channel ID in this workspace"
advice _ = "Check API connectivity and share the request ID with support"

abbrev failed_setup : String → DeixicError → SetupCheck
failed_setup channel_id e = record {
  status = SetupStatus.failed;
  channel_id = channel_id;
  capabilities = none;
  next_action = advice e.kind;
  error = some e;
  model_selection = none;
  default_model = none;
  selected_model = none;
}

-- The body of `try`, and `except DeixicError`.
unfoldable pub looked_up : String → Result Raised SetupThread → Result Raised SetupCheck
looked_up channel_id (ok thread) =
    if text_eq thread.thread_id channel_id
    then ok (found_setup channel_id thread.setup)
    else ok (
        failed_setup channel_id
          (plain_error "Setup lookup omitted or changed the channel identity" protocol))
looked_up channel_id (err (deixic e)) = ok (failed_setup channel_id e)
looked_up channel_id (err e) = err e

module _ {World : Type 0} (get_setup : String → Call World SetupThread) where
  -- `TasksClient.check_setup`
  unfoldable pub check_setup : Value → World → Result Raised SetupCheck × World
  check_setup channel_id w = elim (identity channel_id "channel_id") [
    | err e ↦ (err (deixic e), w)
    | ok channel ↦ let (r, v) = get_setup channel w in (looked_up channel r, v)
  ]

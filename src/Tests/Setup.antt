-- ===== src/Tests/Setup.antt =====
-- A run of the check of a channel.
use deixic_python.Base.{ℕ, suc, String, true, ◌≡◌, refl, some, [], ◌∷◌, Result, ok, strip}
use deixic_python.Base.Text.{text_dec, is_space, lstrip, rstrip}
use deixic_python.Value.{Value}
use deixic_python.Tasks.Types.{Raised}
use deixic_python.Tasks.Checks.{identity, is_identity}
use deixic_python.Tasks.Setup.{
  AvailableModel, SetupReadiness, SetupThread, SetupCheck, check_setup, looked_up, found_setup,
  is_missing, selected_model, find_model,
}
use deixic_python.Tasks.Setup.Accessible.{IsUsable, check_setup-IsUsable}

abbrev small_model : AvailableModel
small_model = record { provider = "p"; model = "small"; ready = true }

abbrev large_model : AvailableModel
large_model = record { provider = "p"; model = "large"; ready = true }

abbrev readiness : SetupReadiness
readiness = record {
  accessible = true;
  missing_requirements = [];
  default_model = some small_model;
  selection = some (record { provider = "p"; model = "large" });
  available_models = small_model ∷ large_model ∷ [];
}

abbrev channel_thread : SetupThread
channel_thread = record { thread_id = "c1"; setup = some readiness }

abbrev get_setup : String → ℕ → Result Raised SetupThread × ℕ
get_setup channel w = (ok channel_thread, suc w)

abbrev report : SetupCheck
report = found_setup "c1" (some readiness)

check_setup-report : check_setup get_setup (Value.text "c1") 0 ≡ (ok report, 1)
unfolding check_setup looked_up identity is_identity strip lstrip rstrip is_space text_dec
check_setup-report = refl

check_setup-IsUsable_example :
    (channel : String) × (thread : SetupThread) × (identity (Value.text "c1") "channel_id"
      ≡ ok channel)
    × (get_setup channel 0 ≡ (ok thread, 1))
    × (thread.thread_id ≡ channel)
    × IsUsable thread report
unfolding found_setup is_missing selected_model find_model text_dec
check_setup-IsUsable_example =
    check_setup-IsUsable get_setup (Value.text "c1") 0 1 report check_setup-report refl

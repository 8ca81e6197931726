-- ===== src/Tasks/Setup/Accessible.antt =====
-- What an accessible channel is.
use deixic_python.Base.{
  String, true, ◌≡◌, refl, sym, ◌∙◌, ap, subst, Option, none, some, List, [], ◌∷◌, text_eq, Result,
  ok, err, arith, Bool-cases, inl, inr, Result-cases,
}
use deixic_python.Base.Text.{text_eq_iff}
use deixic_python.Value.{Value}
use deixic_python.Tasks.Types.{Raised, deixic}
use deixic_python.Tasks.Checks.{identity}
use deixic_python.Tasks.Platform.{Call}
use deixic_python.Tasks.Setup.{
  AvailableModel, ModelSelection, SetupReadiness, SetupThread, SetupStatus, SetupCheck, setup_of,
  is_missing, find_model, is_explicit, selected_model, is_ready, found_setup, looked_up,
  check_setup,
}

-- A look-up that shows a channel as usable.
pub record IsUsable (thread : SetupThread) (r : SetupCheck) : Type 0 where
  pub setup_found : SetupReadiness
  pub model_found : AvailableModel
  pub setup_given : thread.setup ≡ some setup_found
  pub setup_accessible : setup_found.accessible ≡ true
  pub nothing_missing : setup_found.missing_requirements ≡ []
  pub model_given : r.selected_model ≡ some model_found
  pub model_ready : model_found.ready ≡ true
  pub model_named :
      (s : ModelSelection)
      → setup_found.selection ≡ some s
      → is_explicit (some s) ≡ true
      → (model_found.provider ≡ s.provider) × (model_found.model ≡ s.model)

find_model-named :
    (s : ModelSelection) (ms : List AvailableModel) (m : AvailableModel)
    → find_model s ms ≡ some m
    → (m.provider ≡ s.provider) × (m.model ≡ s.model)
unfolding find_model
find_model-named s [] m h = cc
find_model-named s (n ∷ ms) m h =
    ground (
      arith,
      find_model-named s ms m,
      text_eq_iff n.provider s.provider,
      text_eq_iff n.model s.model,
    )

record Ready (s : SetupReadiness) : Type 0 where
  reached : s.accessible ≡ true
  complete : s.missing_requirements ≡ []
  available : is_ready (selected_model s) ≡ true

found_setup-Ready :
    (channel_id : String) (setup : Option SetupReadiness)
    → (found_setup channel_id setup).status ≡ SetupStatus.accessible
    → Ready (setup_of setup)
unfolding found_setup is_missing
found_setup-Ready channel_id setup h = record {
  reached = ground arith;
  complete = ground arith;
  available = ground arith;
}

ready_model :
    (o : Option AvailableModel)
    → is_ready o ≡ true
    → (m : AvailableModel) × (o ≡ some m) × (m.ready ≡ true)
ready_model none h = cc
ready_model (some m) h = (m, refl, h)

given_setup :
    (o : Option SetupReadiness)
    → (setup_of o).accessible ≡ true
    → (s : SetupReadiness) × (o ≡ some s)
given_setup none h = cc
given_setup (some s) h = (s, refl)

selected_model-named :
    (setup : SetupReadiness) (s : ModelSelection) (m : AvailableModel)
    → selected_model setup ≡ some m
    → setup.selection ≡ some s
    → is_explicit (some s) ≡ true
    → (m.provider ≡ s.provider) × (m.model ≡ s.model)
unfolding selected_model
selected_model-named setup s m h e x =
    find_model-named s setup.available_models m (sym (rw (selected_model, e, x) refl) ∙ h)

found_setup-IsUsable :
    (channel_id : String) (thread : SetupThread)
    → (found_setup channel_id thread.setup).status ≡ SetupStatus.accessible
    → IsUsable thread (found_setup channel_id thread.setup)
unfolding found_setup
found_setup-IsUsable channel_id thread h =
    let ready = found_setup-Ready channel_id thread.setup h in
    let (setup, given) = given_setup thread.setup ready.reached in
    let there = subst (λ o. Ready (setup_of o)) given ready in
    let (m, chosen, good) = ready_model (selected_model setup) there.available in
    record {
      setup_found = setup;
      model_found = m;
      setup_given = given;
      setup_accessible = there.reached;
      nothing_missing = there.complete;
      model_given = ap (λ o. selected_model (setup_of o)) given ∙ chosen;
      model_ready = good;
      model_named = λ s e x. selected_model-named setup s m chosen e x;
    }

looked_up-inv :
    (channel_id : String) (o : Result Raised SetupThread) (r : SetupCheck)
    → looked_up channel_id o ≡ ok r
    → r.status ≡ SetupStatus.accessible
    → (thread : SetupThread) × (o ≡ ok thread)
      × (thread.thread_id ≡ channel_id)
      × (found_setup channel_id thread.setup ≡ r)
unfolding looked_up
looked_up-inv channel_id (ok thread) r h a =
    elim (Bool-cases (text_eq thread.thread_id channel_id)) [
      | inl same ↦ (thread, refl, (text_eq_iff thread.thread_id channel_id).0 same, ground arith)
      | inr other ↦ ground arith
    ]
looked_up-inv channel_id (err (deixic e)) r h a = ground arith
looked_up-inv channel_id (err e) r h a = cc

err-ok :
    {W : Type 0} {e : Raised} {r : SetupCheck} {s t : W}
    → ◌≡◌ {A = Result Raised SetupCheck × W} (err e, s) (ok r, t)
    → ⊥
err-ok h = cc

module _ {World : Type 0} (get_setup : String → Call World SetupThread) where
  -- A channel that `check_setup` reports as accessible is the one that was asked for: its look-up
  -- returned a thread with just this identity, whose setup is there, is accessible and misses nothing,
  -- and the model that the report selects is ready; where the setup selects a model by name, it is this
  -- model.
  pub check_setup-IsUsable :
      (channel_id : Value) (w v : World) (r : SetupCheck)
      → check_setup get_setup channel_id w ≡ (ok r, v)
      → r.status ≡ SetupStatus.accessible
      → (channel : String) × (thread : SetupThread) × (identity channel_id "channel_id"
          ≡ ok channel)
        × (get_setup channel w ≡ (ok thread, v))
        × (thread.thread_id ≡ channel)
        × IsUsable thread r
  unfolding check_setup
  check_setup-IsUsable channel_id w v r h a =
      elim (Result-cases (identity channel_id "channel_id")) [
        | inl (channel, named) ↦
            let found : (looked_up channel (get_setup channel w).0, (get_setup channel w).1)
                ≡ (ok r, v) =
              sym (rw (check_setup, named) refl) ∙ h in
            let (thread, answer, same, report) =
              looked_up-inv channel (get_setup channel w).0 r (ap (λ x. x.0) found) a in
            (
              channel,
              thread,
              named,
              (λ i. (answer i, (ap (λ x. x.1) found) i)),
              same,
              subst (IsUsable thread) report (
                  found_setup-IsUsable channel thread
                    (ap (λ (x : SetupCheck). x.status) report ∙ a)),
            )
        | inr (e, refused) ↦
            let raised : check_setup get_setup channel_id w ≡ (err (deixic e), w) =
              rw (check_setup, refused) refl in
            absurd (err-ok (sym raised ∙ h))
      ]

-- ===== src/Tasks/Submit/Outcome.antt =====
-- What `submit` and `replay` leave behind, on every path.
use deixic_python.Base.{
  Bool, true, false, not, ◌||◌, ◌≡◌, refl, sym, ap, ◌∙◌, ◌⊎◌, inl, inr, Option, Result, ok, err,
  Bool-cases, arith,
}
use deixic_python.Base.Post.{Post, returned, raised, Post-bind, Post-ok, Post-err, Post-state}
use deixic_python.Errors.{validation_error}
use deixic_python.Tasks.Voice.{VoiceSelection}
use deixic_python.Tasks.Types.{Checkpoint, Submission, prepared, Accepted, Raised, deixic}
use deixic_python.Tasks.Platform.{
  Platform, Call, TaskState, Session, call, raise_protocol_if, checked, save,
}
use deixic_python.Tasks.Platform.Steps.{called, checks, raises_if, saves}
use deixic_python.Tasks.Submit.{
  same_submission, saved_voice, request_of, is_bad_turn, mark_unacknowledged, mark_accepted, accept,
  transmit, submit_body, set_submitting, submit_from, submit,
}

abbrev pub already_attempted : Raised
already_attempted = deixic (
    validation_error
      "Submission already attempted; resume or explicitly replay an unacknowledged request")

-- The submission is no part of the request.
pub same_request :
    (c : Checkpoint) (voice : Option VoiceSelection)
    → request_of (mark_unacknowledged c) voice ≡ request_of c voice
unfolding request_of
same_request c voice = refl

pub or-true : (b : Bool) → (b || true) ≡ true
or-true b = ground arith

err-ok :
    {W : Type 0} {e : Raised} {s t : W}
    → ◌≡◌ {A = Result Raised (Unit {0}) × W} (err e, s) (ok tt, t)
    → ⊥
err-ok h = cc

module _ (P : Platform) (on_checkpoint : Option (Checkpoint → Call P.World (Unit {0}))) where
  -- The server's answer to the request of a checkpoint, with coordinates that the source accepts.
  pub record Answered (c : Checkpoint) (a : Accepted) : Type 0 where
    pub voice : Option VoiceSelection
    pub before : P.World
    pub after : P.World
    pub voice_saved : saved_voice c.voice_selection ≡ ok voice
    pub sent : P.send (request_of c voice) before ≡ (ok a, after)
    pub usable : is_bad_turn a ≡ false

  -- The checkpoint behind an answer.
  abbrev pub IsAccepted : Checkpoint → Checkpoint → Type 0
  IsAccepted c d = (a : Accepted) × Answered c a × (d ≡ mark_accepted a c)

  -- The checkpoint behind an attempt, whatever came of it.
  abbrev pub IsAttempted : Checkpoint → Checkpoint → Type 0
  IsAttempted c d = (d ≡ mark_unacknowledged c) ⊎ IsAccepted c d

  accept-Post :
      (c : Checkpoint) (a : Accepted) (s : Session P.World)
      → s.task.checkpoint ≡ mark_unacknowledged c
      → (is_bad_turn a ≡ false → Answered c a)
      → Post
          (λ _ t. IsAccepted c t.task.checkpoint)
          (λ t. IsAttempted c t.task.checkpoint)
          (accept P on_checkpoint a s)
  unfolding accept
  accept-Post c a s h answered =
      let settled : is_bad_turn a ≡ false → mark_accepted a s.task.checkpoint ≡ mark_accepted a c =
        λ good. ap (mark_accepted a) h in
      Post-bind (raise_protocol_if _ _) _ s
        (raises_if {Q = λ _ t. (is_bad_turn a ≡ false) × (t ≡ s)} _ _ s (λ good. (good, refl))
          (inl h))
        λ u t e (good, same).
          saves on_checkpoint _
            (λ w. (
              a,
              answered good,
              ap (mark_accepted a) (ap (λ (t : Session P.World). t.task.checkpoint) same ∙ h),
            ))
            (λ w. inr (
              a,
              answered good,
              ap (mark_accepted a) (ap (λ (t : Session P.World). t.task.checkpoint) same ∙ h),
            ))

  transmit-Post :
      (c : Checkpoint) (s : Session P.World)
      → s.task.checkpoint ≡ mark_unacknowledged c
      → Post
          (λ _ t. IsAccepted c t.task.checkpoint)
          (λ t. IsAttempted c t.task.checkpoint)
          (transmit P on_checkpoint s)
  unfolding transmit
  transmit-Post c s h =
      Post-bind (checked (saved_voice s.task.checkpoint.voice_selection)) _ s
        (checks {Q = λ v t. (saved_voice s.task.checkpoint.voice_selection ≡ ok v) × (t ≡ s)} _ s
          (λ v e. (e, refl)) (inl h))
        λ voice t e (saved, same).
          Post-bind (call (P.send (request_of s.task.checkpoint voice))) _ t
            (called
              {Q = λ a u.
                (u.task ≡ s.task)
                × ((w : P.World) × (P.send (request_of s.task.checkpoint voice) t.world
                      ≡ (ok a, w)))}
              (P.send (request_of s.task.checkpoint voice)) t
              (λ a w sent. (ap (λ (t : Session P.World). t.task) same, (w, sent)))
              (λ w. inl (ap (λ (t : Session P.World). t.task.checkpoint) same ∙ h)))
            λ a u e' (kept, (w, sent)).
              accept-Post c a u (ap (λ (t : TaskState). t.checkpoint) kept ∙ h) λ good. record {
                voice = voice;
                before = t.world;
                after = w;
                voice_saved =
                    ap (λ (d : Checkpoint). saved_voice d.voice_selection) (sym h) ∙ saved;
                sent =
                    ap (λ r. P.send r t.world)
                      (sym (ap (λ d. request_of d voice) h ∙ same_request c voice))
                    ∙ sent;
                usable = good;
              }

  submit_body-Post :
      (s : Session P.World)
      → Post
          (λ _ t. IsAccepted s.task.checkpoint t.task.checkpoint)
          (λ t. IsAttempted s.task.checkpoint t.task.checkpoint)
          (submit_body P on_checkpoint s)
  unfolding submit_body
  submit_body-Post s =
      Post-bind (save on_checkpoint) _ _
        (saves {Q = λ _ t. t.task.checkpoint ≡ mark_unacknowledged s.task.checkpoint} on_checkpoint
          _ (λ w. refl) (λ w. inl refl))
        λ u t e h. transmit-Post s.task.checkpoint t h

  -- Whether `submit` or `replay` goes on to an attempt.
  abbrev pub is_refused : Submission → Session P.World → Bool
  is_refused required s =
      s.task.submitting || not (same_submission s.task.checkpoint.submission required)

  abbrev IsOver : (Checkpoint → Type 0) → Session P.World → Type 0
  IsOver Q t = (t.task.submitting ≡ false) × Q t.task.checkpoint

  finally-Post :
      (c : Checkpoint) (r : Result Raised (Unit {0}) × Session P.World)
      → Post (λ _ t. IsAccepted c t.task.checkpoint) (λ t. IsAttempted c t.task.checkpoint) r
      → Post
          (λ _. IsOver (IsAccepted c))
          (IsOver (IsAttempted c))
          (r.0, set_submitting P on_checkpoint false r.1)
  finally-Post c (ok a, t) p = returned a _ (refl, p.left)
  finally-Post c (err e, t) p = raised e _ (refl, p.left)

  pub submit_from-Post :
      (required : Submission) (s : Session P.World)
      → is_refused required s ≡ false
      → Post
          (λ _. IsOver (IsAccepted s.task.checkpoint))
          (IsOver (IsAttempted s.task.checkpoint))
          (submit_from P on_checkpoint required s)
  unfolding submit_from
  submit_from-Post required s allowed =
      rw allowed (
        finally-Post s.task.checkpoint _ (submit_body-Post (set_submitting P on_checkpoint true s)))

  pub refused-eq :
      (required : Submission) (s : Session P.World)
      → is_refused required s ≡ true
      → submit_from P on_checkpoint required s ≡ (err already_attempted, s)
  unfolding submit_from
  refused-eq required s h = rw h

  -- Where `submit` or `replay` returns, the server has answered the request of the checkpoint,
  -- made with the saved voice selection, with usable coordinates; the checkpoint is accepted at
  -- just these and otherwise unchanged, and no attempt is in progress any more.
  pub submit_from-ok :
      (required : Submission) (s t : Session P.World)
      → submit_from P on_checkpoint required s ≡ (ok tt, t)
      → (t.task.submitting ≡ false) × IsAccepted s.task.checkpoint t.task.checkpoint
  submit_from-ok required s t h = elim (Bool-cases (is_refused required s)) [
    | inl refused ↦ absurd (err-ok (sym (refused-eq required s refused) ∙ h))
    | inr allowed ↦ Post-ok _ h (submit_from-Post required s allowed)
  ]

  -- Where `submit` or `replay` raises, either the handle and the world are as before, or no
  -- attempt is in progress any more and the checkpoint is the one before, marked unacknowledged
  -- or accepted at the coordinates of the server's usable answer to its request.
  pub submit_from-err :
      (required : Submission) (s t : Session P.World) (e : Raised)
      → submit_from P on_checkpoint required s ≡ (err e, t)
      → (t ≡ s) ⊎ ((t.task.submitting ≡ false) × IsAttempted s.task.checkpoint t.task.checkpoint)
  submit_from-err required s t e h = elim (Bool-cases (is_refused required s)) [
    | inl refused ↦ inl (ap (λ r. r.1) (sym h ∙ refused-eq required s refused))
    | inr allowed ↦ inr (Post-err _ h (submit_from-Post required s allowed))
  ]

  attempted-refused :
      (c : Checkpoint) (t : Session P.World)
      → IsAttempted c t.task.checkpoint
      → is_refused prepared t ≡ true
  attempted-refused c t h = elim h [
    | inl e ↦ rw e (or-true t.task.submitting)
    | inr (a, x, e) ↦ rw e (or-true t.task.submitting)
  ]

  submit-refused : (s : Session P.World) → is_refused prepared (submit P on_checkpoint s).1 ≡ true
  unfolding submit
  submit-refused s = elim (Bool-cases (is_refused prepared s)) [
    | inl refused ↦ rw (refused-eq prepared s refused, refused)
    | inr allowed ↦
        Post-state (λ t. is_refused prepared t ≡ true) (submit_from P on_checkpoint prepared s)
          (submit_from-Post prepared s allowed)
          (λ a t h. attempted-refused s.task.checkpoint t (inr h.1))
          (λ t h. attempted-refused s.task.checkpoint t h.1)
  ]

  -- A handle submits at most once: whatever came of a call of `submit`, a second call right
  -- behind it raises, and changes neither the handle nor the world, so it sends and saves
  -- nothing.
  pub submit-submit :
      (s : Session P.World)
      → let t = (submit P on_checkpoint s).1 in
        submit P on_checkpoint t ≡ (err already_attempted, t)
  submit-submit s =
      unfold submit in refused-eq prepared (submit P on_checkpoint s).1 (submit-refused s)

-- ===== src/Tasks/Submit/Frame.antt =====
-- What `submit` and `replay` ask of the world.
use deixic_python.Base.{
  true, ◌≡◌, refl, sym, ap, ◌∙◌, subst, inl, inr, Option, none, some, Result, ok, Bool-cases,
}
use deixic_python.Base.Post.{Post, returned, Post-bind, Post-weaken, Post-state}
use deixic_python.Tasks.Voice.{VoiceSelection}
use deixic_python.Tasks.Types.{Checkpoint, Submission, Accepted, Raised}
use deixic_python.Tasks.Platform.{
  Platform, Call, TaskState, Session, call, raise_protocol_if, checked, save,
}
use deixic_python.Tasks.Platform.Steps.{called_at, checks, raises_if}
use deixic_python.Tasks.Submit.{
  saved_voice, request_of, is_bad_turn, mark_unacknowledged, mark_accepted, accept, transmit,
  submit_body, set_submitting, submit_from,
}
use deixic_python.Tasks.Submit.Outcome.{is_refused, refused-eq, same_request}

-- The application's store, as far as a property of the world goes.
abbrev pub Saving :
    {World : Type 0} → Option (Checkpoint → Call World (Unit {0})) → (World → Type 0) → Type 0
Saving none I = Unit
Saving (some f) I = (c : Checkpoint) (w : _) → I w → I (f c w).1

module _ {World : Type 0} (K : World → Type 0) where
  saves_keep :
      (o : Option (Checkpoint → Call World (Unit {0}))) (s : Session World)
      → Saving o K
      → K s.world
      → Post (λ _ t. K t.world × (t.task ≡ s.task)) (λ t. K t.world) (save o s)
  unfolding save
  saves_keep none s h k = returned tt s (k, refl)
  saves_keep (some f) s h k =
      let kept = h s.task.checkpoint s.world k in
      called_at (f s.task.checkpoint) s (λ a _. (kept, refl)) kept

-- The submission is no part of what is sent.
same_saved : (c d : Checkpoint) → d ≡ mark_unacknowledged c → d.voice_selection ≡ c.voice_selection
same_saved c d h = ap (λ (e : Checkpoint). e.voice_selection) h

module _ (P : Platform) (on_checkpoint : Option (Checkpoint → Call P.World (Unit {0})))
    (c : Checkpoint) (I J : P.World → Type 0)
    (sends : (voice : Option VoiceSelection) (w : P.World)
      → saved_voice c.voice_selection ≡ ok voice
      → I w
      → J (P.send (request_of c voice) w).1)
    (relaxes : (w : P.World) → I w → J w) (saves_I : Saving on_checkpoint I)
    (saves_J : Saving on_checkpoint J) where
  abbrev Ends : Result Raised (Unit {0}) × Session P.World → Type 0
  Ends r = Post (λ _ t. J t.world) (λ t. J t.world) r

  accept-Ends : (a : Accepted) (s : Session P.World) → J s.world → Ends (accept P on_checkpoint a s)
  unfolding accept
  accept-Ends a s j =
      Post-bind (raise_protocol_if _ _) _ s
        (raises_if {Q = λ _ t. J t.world} (is_bad_turn a)
          "Submission omitted valid accepted-turn coordinates" s (λ _. j) j)
        λ _ t _ k.
          Post-weaken _
            (saves_keep J on_checkpoint
              (record t { task = record t.task { checkpoint = mark_accepted a t.task.checkpoint } })
              saves_J k)
            (λ _ _ x. x.0) (λ _ x. x)

  transmit-Ends :
      (s : Session P.World)
      → s.task.checkpoint ≡ mark_unacknowledged c
      → I s.world
      → Ends (transmit P on_checkpoint s)
  unfolding transmit
  transmit-Ends s h i =
      let d = s.task.checkpoint in
      Post-bind (checked (saved_voice d.voice_selection)) _ s
        (checks {Q = λ v t. (saved_voice c.voice_selection ≡ ok v) × I t.world} _ s
          (λ v e. (ap saved_voice (sym (same_saved c d h)) ∙ e, i)) (relaxes s.world i))
        λ voice t _ (saved, g).
          let sent : J (P.send (request_of d voice) t.world).1 =
            subst (λ q. J (P.send q t.world).1)
              (sym (ap (λ e. request_of e voice) h ∙ same_request c voice))
              (sends voice t.world saved g) in
          Post-bind (call (P.send (request_of d voice))) _ t
            (called_at {Q = λ _ u. J u.world} (P.send (request_of d voice)) t (λ _ _. sent) sent)
            λ a u _ j. accept-Ends a u j

  submit_body-Ends :
      (s : Session P.World)
      → s.task.checkpoint ≡ c
      → I s.world
      → Ends (submit_body P on_checkpoint s)
  unfolding submit_body
  submit_body-Ends s h i =
      let marked = record s {
        task = record s.task { checkpoint = mark_unacknowledged s.task.checkpoint };
      } in
      Post-bind (save on_checkpoint) _ marked
        (Post-weaken _ (saves_keep I on_checkpoint marked saves_I i) (λ _ _ x. x)
          (λ t k. relaxes t.world k))
        λ _ t _ (k, same).
          transmit-Ends t (ap (λ (z : TaskState). z.checkpoint) same ∙ ap mark_unacknowledged h) k

  -- `submit` and `replay` send at most one message, and it is the request of the checkpoint with its
  -- saved voice selection. Stated of any two properties of the world, the first of which implies the
  -- second and is turned into it by that message, with nothing assumed of any other message: where
  -- the first property holds before and the application's store keeps both, the second holds after,
  -- whether the call returns or raises.
  pub submit_from-sends :
      (required : Submission) (s : Session P.World)
      → s.task.checkpoint ≡ c
      → I s.world
      → J (submit_from P on_checkpoint required s).1.world
  submit_from-sends required s h i = elim (Bool-cases (is_refused P on_checkpoint required s)) [
    | inl refused ↦ rw (refused-eq P on_checkpoint required s refused) (relaxes s.world i)
    | inr allowed ↦
        unfold submit_from in
        rw allowed (
          Post-state (λ t. J t.world)
            (submit_body P on_checkpoint (set_submitting P on_checkpoint true s))
            (submit_body-Ends (set_submitting P on_checkpoint true s) h i) (λ _ _ j. j) (λ _ j. j))
  ]

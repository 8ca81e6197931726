-- ===== src/Tasks/Submit/Valid.antt =====
-- Checkpoints stay such that `resume` accepts them.
use deixic_python.Base.{
  ℕ, ◌<◌, String, true, false, ◌||◌, ◌≡◌, refl, sym, subst, ◌∙◌, ◌⊎◌, inl, inr, Option, none, some,
  is_empty, ok, Bool-cases, arith,
}
use deixic_python.Base.Int.{ℤ, pos, negsuc, ◌≤ℤ◌, leb_ℤ, ltb_ℤ}
use deixic_python.Base.Decimal.{str, str_ℕ, value, value-str_ℕ}
use deixic_python.Base.Ensures.{Ensures, Ensures-ok, Ensures-bind, Ensures-returned, ok-injective}
use deixic_python.Value.{Value}
use deixic_python.Tasks.Voice.{VoiceSelection, voice_checkpoint}
use deixic_python.Tasks.Voice.RoundTrip.{normalize-IsNormal}
use deixic_python.Tasks.Types.{Checkpoint, Client, Accepted, Submission, prepared, unacknowledged}
use deixic_python.Tasks.Resume.Sound.{identity-inv, body-inv}
use deixic_python.Tasks.Checks.{
  max_cursor, is_identity, is_decimal, is_decimal-str_ℕ, identity, body,
}
use deixic_python.Tasks.Resume.Valid.{IsValid, Coordinates, VoiceIsNormal}
use deixic_python.Tasks.Platform.{Platform, SubmitRequest, Call, Session}
use deixic_python.Tasks.Submit.{
  same_submission, is_bad_turn, mark_accepted, mark_unacknowledged, submit_from, prepare_checkpoint,
  prepare_voice, prepare_project,
}
use deixic_python.Tasks.Submit.Outcome.{
  or-true, IsAccepted, IsAttempted, is_refused, refused-eq, submit_from-Post,
}
use deixic_python.Base.Post.{Post-state}

true-false : true ≡ false → ⊥
true-false h = cc

negsuc-negative : (n : ℕ) → ltb_ℤ (negsuc n) (pos 0) ≡ true
negsuc-negative n = ground arith

is_decimal-str : (n : ℤ) → n ≤ℤ pos max_cursor → ltb_ℤ n (pos 0) ≡ false → is_decimal (str n) ≡ true
unfolding str
is_decimal-str (pos n) h p = is_decimal-str_ℕ n (omega arith)
is_decimal-str (negsuc n) h p = absurd (true-false (sym (negsuc-negative n) ∙ p))

value-str_pos : (n : ℤ) → leb_ℤ n (pos 0) ≡ false → 0 < value 0 (str n)
unfolding str
value-str_pos (pos n) h = rw (value-str_ℕ n) (ground arith)
value-str_pos (negsuc n) h = ground arith

-- The fields of an answer, which are int64 on the wire.
pub record IsInt64 (a : Accepted) : Type 0 where
  pub sequence_fits : a.sequence ≤ℤ pos max_cursor
  pub cursor_fits : a.replay_cursor ≤ℤ pos max_cursor

record Usable (a : Accepted) : Type 0 where
  turn_good : is_identity a.turn_id ≡ true
  sequence_positive : leb_ℤ a.sequence (pos 0) ≡ false
  sequence_natural : ltb_ℤ a.sequence (pos 0) ≡ false
  cursor_natural : ltb_ℤ a.replay_cursor (pos 0) ≡ false

usable : (a : Accepted) → is_bad_turn a ≡ false → Usable a
unfolding is_bad_turn
usable a h = record {
  turn_good = ground arith;
  sequence_positive = ground arith;
  sequence_natural = ground arith;
  cursor_natural = ground arith;
}

mark_accepted-IsValid :
    (client : Client) (c : Checkpoint) (a : Accepted)
    → IsValid client c
    → is_bad_turn a ≡ false
    → IsInt64 a
    → IsValid client (mark_accepted a c)
mark_accepted-IsValid client c a v good fits =
    let u = usable a good in
    record {
      organization = v.organization;
      workspace = v.workspace;
      origin = v.origin;
      channel = v.channel;
      key = v.key;
      request = v.request;
      project = v.project;
      voice = v.voice;
      sequence = is_decimal-str a.sequence fits.sequence_fits u.sequence_natural;
      cursor = is_decimal-str a.replay_cursor fits.cursor_fits u.cursor_natural;
      coordinates = (u.turn_good, value-str_pos a.sequence u.sequence_positive);
    }

mark_unacknowledged-IsValid :
    (client : Client) (c : Checkpoint)
    → IsValid client c
    → (c.submission ≡ prepared) ⊎ (c.submission ≡ unacknowledged)
    → IsValid client (mark_unacknowledged c)
mark_unacknowledged-IsValid client c v h = record {
  organization = v.organization;
  workspace = v.workspace;
  origin = v.origin;
  channel = v.channel;
  key = v.key;
  request = v.request;
  project = v.project;
  voice = v.voice;
  sequence = v.sequence;
  cursor = v.cursor;
  coordinates = elim h [
    | inl e ↦ subst (λ s. Coordinates s c.turn_id c.sequence c.cursor) e v.coordinates
    | inr e ↦ subst (λ s. Coordinates s c.turn_id c.sequence c.cursor) e v.coordinates
  ];
}

same_submission-eq : (s t : Submission) → same_submission s t ≡ true → s ≡ t
same_submission-eq s t h = ground arith

module _ (P : Platform) (on_checkpoint : Option (Checkpoint → Call P.World (Unit {0})))
    (client : Client)
    (answers : (q : SubmitRequest) (w v : P.World) (a : Accepted)
      → P.send q w ≡ (ok a, v)
      → IsInt64 a) where
  answered-IsValid :
      (c d : Checkpoint) → IsValid client c → IsAccepted P on_checkpoint c d → IsValid client d
  answered-IsValid c d v (a, x, e) =
      subst (IsValid client) (sym e)
        (mark_accepted-IsValid client c a v x.usable (answers _ _ _ a x.sent))

  attempted-IsValid :
      (c d : Checkpoint)
      → IsValid client c
      → (c.submission ≡ prepared) ⊎ (c.submission ≡ unacknowledged)
      → IsAttempted P on_checkpoint c d
      → IsValid client d
  attempted-IsValid c d v before h = elim h [
    | inl e ↦ subst (IsValid client) (sym e) (mark_unacknowledged-IsValid client c v before)
    | inr x ↦ answered-IsValid c d v x
  ]

  attempted_from :
      (required : Submission) (s : Session P.World)
      → (required ≡ prepared) ⊎ (required ≡ unacknowledged)
      → is_refused P on_checkpoint required s ≡ false
      → (s.task.checkpoint.submission ≡ prepared) ⊎ (s.task.checkpoint.submission ≡ unacknowledged)
  attempted_from required s m allowed =
      ground (arith, same_submission-eq s.task.checkpoint.submission required)

  -- From a valid checkpoint, `submit` and `replay` leave a valid one, whether they return or
  -- raise, where the server's sequences and cursors are int64 values.
  pub submit_from-IsValid :
      (required : Submission) (s : Session P.World)
      → (required ≡ prepared) ⊎ (required ≡ unacknowledged)
      → IsValid client s.task.checkpoint
      → IsValid client (submit_from P on_checkpoint required s).1.task.checkpoint
  submit_from-IsValid required s m v = elim (Bool-cases (is_refused P on_checkpoint required s)) [
    | inl refused ↦ rw (refused-eq P on_checkpoint required s refused) v
    | inr allowed ↦
        let before = attempted_from required s m allowed in
        Post-state (λ t. IsValid client t.task.checkpoint) (submit_from P on_checkpoint required s)
          (submit_from-Post P on_checkpoint required s allowed)
          (λ a t h. answered-IsValid s.task.checkpoint t.task.checkpoint v h.1)
          (λ t h. attempted-IsValid s.task.checkpoint t.task.checkpoint v before h.1)
  ]

prepare_project-inv :
    (p : String) {s : String} → prepare_project p ≡ ok s → (is_empty s || is_identity s) ≡ true
unfolding prepare_project
prepare_project-inv p {s} h = elim (Bool-cases (is_empty p)) [
  | inl e ↦
      subst (λ t. (is_empty t || is_identity t) ≡ true) (ok-injective "" s (sym (rw e refl) ∙ h))
        refl
  | inr e ↦
      let named : identity (Value.text p) "project_resource_id" ≡ ok s = sym (rw e refl) ∙ h in
      rw (identity-inv (Value.text p) "project_resource_id" named).1 (or-true (is_empty s))
]

prepare_voice-Ensures : (v : Option VoiceSelection) → Ensures VoiceIsNormal (prepare_voice v)
unfolding prepare_voice voice_checkpoint
prepare_voice-Ensures none = Ensures-ok tt
prepare_voice-Ensures (some v) =
    Ensures-bind (voice_checkpoint v) λ w e. Ensures-ok (normalize-IsNormal v w e)

-- A checkpoint that `prepare` makes of its arguments is marked prepared and valid for its client.
pub prepare_checkpoint-IsValid :
    (client : Client) (channel_id task_body key project : String) (voice : Option VoiceSelection)
    {c : Checkpoint}
    → prepare_checkpoint client channel_id task_body key project voice ≡ ok c
    → (c.submission ≡ prepared) × IsValid client c
unfolding str_ℕ
prepare_checkpoint-IsValid client channel_id task_body key project voice h =
    Ensures-returned {P = λ c. (c.submission ≡ prepared) × IsValid client c}
      (prepare_checkpoint client channel_id task_body key project voice)
      (unfold prepare_checkpoint in
        Ensures-bind (identity _ "channel_id") λ channel ch. Ensures-bind (body _) λ request b.
          Ensures-bind (identity _ "idempotency_key") λ k ke.
            Ensures-bind (prepare_project project) λ p pe.
              Ensures-bind (prepare_voice voice) λ w we. Ensures-ok (
                refl,
                record {
                  organization = refl;
                  workspace = refl;
                  origin = refl;
                  channel = (identity-inv _ "channel_id" ch).1;
                  key = (identity-inv _ "idempotency_key" ke).1;
                  request = body-inv _ b;
                  project = prepare_project-inv project pe;
                  sequence = is_decimal-str_ℕ 0 (omega arith);
                  cursor = is_decimal-str_ℕ 0 (omega arith);
                  coordinates = (refl, value-str_ℕ 0, value-str_ℕ 0);
                  voice = Ensures-returned _ (prepare_voice-Ensures voice) we;
                },
              ))
      h

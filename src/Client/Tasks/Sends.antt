-- ===== src/Client/Tasks/Sends.antt =====
-- What a submission of a task sends over the network.
use deixic_python.Base.{
  ℕ, String, false, ◌≡◌, refl, ◌⊎◌, inl, inr, Option, none, some, List, [], Result, ok, err,
  Result-cases, strip, arith,
}
use deixic_python.Base.Post.{Post, returned, raised, Post-bind, Post-weaken, Post-state}
use deixic_python.Value.{Value}
use deixic_python.Errors.{DeixicError}
use deixic_python.Tasks.Voice.{VoiceSelection, normalize_voice_selection}
use deixic_python.Tasks.Types.{Checkpoint, Submission, Accepted, TaskEvent, Raised}
use deixic_python.Tasks.Platform.{Call, SubmitRequest, Session}
use deixic_python.Tasks.Submit.{submit_from, request_of}
use deixic_python.Tasks.Submit.Frame.{Saving, submit_from-sends}
use deixic_python.Client.{Config, required}
use deixic_python.Client.Network.{HttpRequest, Network, Connection, unary, open_call, read_unary}
use deixic_python.Client.Network.Replay.{IsAttempt, Pays, Pays-narrow, open_call-Post}
use deixic_python.Client.Resources.{
  scope_of, SubmitMessage, Message, Codec, argument, optional_id, submit_message, submit_with,
  unary_of, voiced_result, messages_send,
}
use deixic_python.Client.Tasks.{task_platform, send_task, optional_text}

-- The serialised message of a submission, plain or with a voice, with its method.
abbrev Submits : Config → Codec → SubmitMessage → HttpRequest → Type 0
Submits config codec m q =
    IsAttempt config "SubmitTask" (codec.serialize (Message.submit_task (scope_of config) m)) false
      none q
    ⊎ ((v : VoiceSelection) × IsAttempt config "SubmitVoicedTask"
          (codec.serialize (Message.submit_voiced_task (scope_of config) m v)) false none q)

-- A request that submits a task's body under its key.
abbrev pub IsSubmission : Config → Codec → String → String → HttpRequest → Type 0
IsSubmission config codec body key q =
    (m : SubmitMessage) × (m.body ≡ body)
    × (m.idempotency_key ≡ strip key)
    × Submits config codec m q

required-stripped :
    (s field : String) {t : String} → required (Value.text s) field ≡ ok t → t ≡ strip s
unfolding required
required-stripped s field h = ground arith

module _ (N : Network) (config : Config) (codec : Codec) (I : ℕ → N.World → Type 0) where
  -- Some of the budget is left, whatever a call does.
  abbrev Spent : {A : Type 0} → Result Raised A × Connection N.World → Type 0
  Spent r = Post (λ _ t. (k : ℕ) × I k t.world) (λ t. (k : ℕ) × I k t.world) r

  argues :
      {A : Type 0} {Q : A → Connection N.World → Type 0} {J : Connection N.World → Type 0}
      (r : Result DeixicError A) (s : Connection N.World)
      → ((a : A) → r ≡ ok a → Q a s)
      → J s
      → Post Q J (argument r s)
  argues (ok a) s q j = returned a s (q a refl)
  argues (err e) s q j = raised _ s j

  unary-Spent :
      {M : Type 0} (parse : List ℕ → Option M) (method : String) (body : List ℕ)
      (timeout : Option Value) (s : Connection N.World)
      → Pays N (IsAttempt config method body false timeout) I
      → I 2 s.world
      → Spent (unary N config codec.json_loads parse method body timeout s)
  unfolding unary
  unary-Spent parse method body timeout s pays h =
      Post-bind (open_call N config method body false timeout) _ s
        (Post-weaken {R = λ _ t. (k : ℕ) × I k t.world} {K = λ t. (k : ℕ) × I k t.world} _
          (open_call-Post N config method body false timeout I pays s h) (λ _ _ x. x.0) (λ _ x. x))
        λ reply t _ (k, g).
          let closed = pays.by_close reply k t.world g in
          elim (Result-cases (read_unary codec.json_loads parse reply.response)) [
            | inl (m, e) ↦
                rw e (returned m (record t { world = N.close reply t.world }) (k, closed))
            | inr (x, e) ↦ rw e (raised _ (record t { world = N.close reply t.world }) (k, closed))
          ]

  voiced-Spent :
      (r : Option Accepted) (s : Connection N.World)
      → (k : ℕ) × I k s.world
      → Spent (voiced_result N config codec r s)
  voiced-Spent none s h = raised _ s h
  voiced-Spent (some a) s h = returned a s h

  submit_with-Spent :
      (m : SubmitMessage) (voice : Option VoiceSelection) (s : Connection N.World)
      → Pays N (Submits config codec m) I
      → I 2 s.world
      → Spent (submit_with N config codec m voice s)
  unfolding submit_with
  submit_with-Spent m none s pays h =
      unary-Spent codec.parse_accepted "SubmitTask" _ none s (Pays-narrow (λ q a. inl a) pays) h
  submit_with-Spent m (some v) s pays h =
      Post-bind (argument (normalize_voice_selection v)) _ s
        (argues {Q = λ _ t. I 2 t.world} (normalize_voice_selection v) s (λ _ _. h) (2, h))
        λ w t _ g.
          Post-bind
            (unary_of N config codec codec.parse_voiced "SubmitVoicedTask"
              (Message.submit_voiced_task (scope_of config) m w) none)
            _ t
            (unary-Spent codec.parse_voiced "SubmitVoicedTask" _ none t
              (Pays-narrow (λ q a. inr (w, a)) pays) g)
            λ r u _ l. voiced-Spent r u l

  submit_message-Post :
      (channel_id : Value) (body key : String) (project : Option Value) (s : Connection N.World)
      → I 2 s.world
      → Post
          (λ m t. I 2 t.world × (m.body ≡ body) × (m.idempotency_key ≡ strip key))
          (λ t. (k : ℕ) × I k t.world)
          (submit_message N config codec channel_id body (Value.text key) "" [] project none s)
  unfolding submit_message
  submit_message-Post channel_id body key project s h =
      Post-bind (argument (required channel_id "channel_id")) _ s
        (argues {Q = λ _ t. I 2 t.world} (required channel_id "channel_id") s (λ _ _. h) (2, h))
        λ thread_id t _ g.
          Post-bind (argument (required (Value.text key) "idempotency_key")) _ t
            (argues {Q = λ k u. I 2 u.world × (k ≡ strip key)}
              (required (Value.text key) "idempotency_key") t
              (λ k e. (g, required-stripped key "idempotency_key" e)) (2, g))
            λ k u _ (l, same).
              Post-bind (argument (optional_id N config codec project "project_resource_id")) _ u
                (argues {Q = λ _ v. I 2 v.world}
                  (optional_id N config codec project "project_resource_id") u (λ _ _. l) (2, l))
                λ p v _ m. returned _ v (m, refl, same)

  send_task-Spent :
      (monotonic : N.World → ℕ × N.World) (serialize : TaskEvent → List ℕ) (q : SubmitRequest)
      (s : Connection N.World)
      → Pays N (IsSubmission config codec q.body q.idempotency_key) I
      → I 2 s.world
      → Spent (send_task N config codec monotonic serialize q s)
  unfolding send_task messages_send
  send_task-Spent monotonic serialize q s pays h =
      Post-bind
        (submit_message N config codec (Value.text q.channel_id) q.body
          (Value.text q.idempotency_key) "" [] (optional_text q.project_resource_id) none)
        _ s
        (submit_message-Post (Value.text q.channel_id) q.body q.idempotency_key
          (optional_text q.project_resource_id) s h)
        λ m t _ (g, body, key).
          submit_with-Spent m q.voice_selection t (Pays-narrow (λ r a. (m, body, key, a)) pays) g

module _ (N : Network) (config : Config) (codec : Codec) (monotonic : N.World → ℕ × N.World)
    (serialize : TaskEvent → List ℕ)
    (on_checkpoint : Option (Checkpoint → Call (Connection N.World) (Unit {0})))
    (I : ℕ → N.World → Type 0) where
  sent-Pays :
      (c : Checkpoint) (voice : Option VoiceSelection) (s : Connection N.World)
      → Pays N (IsSubmission config codec c.body c.idempotency_key) I
      → I 2 s.world
      → (k : ℕ) × I k (send_task N config codec monotonic serialize (request_of c voice) s).1.world
  unfolding request_of
  sent-Pays c voice s pays h =
      Post-state (λ t. (k : ℕ) × I k t.world)
        (send_task N config codec monotonic serialize (request_of c voice) s)
        (send_task-Spent N config codec I monotonic serialize (request_of c voice) s pays h)
        (λ _ _ x. x) (λ _ x. x)

  -- Over the client, `submit` and `replay` of a task make at most two HTTP requests, whatever the
  -- transport, the provider and the server do; and each of them submits the body of the task's
  -- checkpoint under its idempotency key, with the client's tenant and address and a credential that
  -- is safe in a header. Stated of any measure of the world that only such a request lowers, by one
  -- at most, and that the application's store keeps: from 2 it never falls below 0, whether the call
  -- returns or raises.
  pub submit_from-Pays :
      (from : Submission) (s : Session (Connection N.World))
      → Pays N
          (IsSubmission config codec s.task.checkpoint.body s.task.checkpoint.idempotency_key)
          I
      → Saving on_checkpoint (λ c. I 2 c.world)
      → Saving on_checkpoint (λ c. (k : ℕ) × I k c.world)
      → I 2 s.world.world
      → (k : ℕ) × I k
          (submit_from
            (task_platform N config codec monotonic serialize)
            on_checkpoint
            from
            s).1.world.world
  submit_from-Pays from s pays keeps keeps_some h =
      submit_from-sends (task_platform N config codec monotonic serialize) on_checkpoint
        s.task.checkpoint (λ c. I 2 c.world) (λ c. (k : ℕ) × I k c.world)
        (λ voice w _ i. sent-Pays s.task.checkpoint voice w pays i) (λ w i. (2, i)) keeps keeps_some
        from s refl h

-- ===== src/Tasks/Resume/Sound.antt =====
-- Whatever value an application hands back, what `resume` accepts is valid.
use deixic_python.Base.{
  ℕ, String, true, not, ◌||◌, ◌&&◌, ◌≡◌, none, some, arith, is_empty, ok, Bool-cases, inl, inr,
  Result-cases,
}
use deixic_python.Base.Ensures.{Ensures, Ensures-ok, Ensures-err, Ensures-bind, Ensures-returned}
use deixic_python.Base.Decimal.{value}
use deixic_python.Value.{Value, Fields, as_text}
use deixic_python.Tasks.Voice.{has_keys, voice_from_checkpoint, voice_checkpoint}
use deixic_python.Tasks.Voice.RoundTrip.{normalize-IsNormal}
use deixic_python.Tasks.Types.{Checkpoint, Client, Submission}
use deixic_python.Tasks.Checks.{identity, body, decimal, is_identity, is_body, is_decimal}
use deixic_python.Tasks.Resume.{
  is_text, expected_keys, refuse_if, resume_voice, resume_project, resume_coordinates,
  resume_fields, resume,
}
use deixic_python.Tasks.Resume.Valid.{IsValid, Coordinates, VoiceIsNormal}

-- The text of a value that is one.
abbrev pub content : Value → String
content v = elim (as_text (some v)) [ none ↦ "" | some s ↦ s ]

pub identity-inv :
    (v : Value) (name : String) {s : String}
    → identity v name ≡ ok s
    → (content v ≡ s) × (is_identity s ≡ true)
unfolding identity
identity-inv (Value.text t) name h = ground arith
identity-inv v name h = cc

pub body-inv : (v : Value) {s : String} → body v ≡ ok s → is_body s ≡ true
unfolding body
body-inv (Value.text t) h = ground arith
body-inv v h = cc

decimal-inv :
    (v : Value) {n : ℕ}
    → decimal v ≡ ok n
    → (is_decimal (content v) ≡ true) × (value 0 (content v) ≡ n)
unfolding decimal
decimal-inv (Value.text t) h = ground arith
decimal-inv v h = cc

is_text-content : (v : Value) (s : String) → is_text v s ≡ true → content v ≡ s
is_text-content (Value.text t) s h = ground arith
is_text-content v s h = cc

-- The comparison of the tenant and the origin has been passed.
tenant-inv :
    (a b c : Value) (organization workspace origin message : String)
    → refuse_if (not (is_text a organization && is_text b workspace && is_text c origin)) message
      ≡ ok tt
    → (content a ≡ organization) × (content b ≡ workspace) × (content c ≡ origin)
unfolding refuse_if
tenant-inv a b c organization workspace origin message h =
    ground
      (arith, is_text-content a organization, is_text-content b workspace, is_text-content c origin)

resume_project-inv :
    (v : Value) {s : String} → resume_project v ≡ ok s → (is_empty s || is_identity s) ≡ true
unfolding resume_project
resume_project-inv v {s} h =
    ground
      (arith, λ (e : identity v "projectResourceId" ≡ ok s). identity-inv v "projectResourceId" e)

resume_voice-Ensures : (schema entry : Value) → Ensures VoiceIsNormal (resume_voice schema entry)
unfolding resume_voice voice_checkpoint
resume_voice-Ensures schema entry = elim (Bool-cases (is_text schema "deixic.task.v2")) [
  | inl second ↦
      rw (resume_voice, second)
        (Ensures-bind (voice_from_checkpoint entry)
          λ v _. Ensures-bind (voice_checkpoint v) λ w e. Ensures-ok (normalize-IsNormal v w e))
  | inr later ↦ elim (Bool-cases (is_text schema "deixic.task.v1")) [
    | inl first ↦ rw (resume_voice, later, first) (Ensures-ok tt)
    | inr neither ↦ rw (resume_voice, later, neither) (Ensures-err _)
  ]
]

resume_coordinates-inv :
    (submission turn : Value) (sequence cursor : ℕ) {s : Submission}
    → resume_coordinates submission turn sequence cursor ≡ ok s
    → (q c : String) → value 0 q ≡ sequence
    → value 0 c ≡ cursor
    → Coordinates s (content turn) q c
unfolding resume_coordinates
resume_coordinates-inv submission turn sequence cursor h q c hq hc =
    elim (Result-cases (identity turn "turnId")) [
      | inl (t, e) ↦ ground (arith, is_text-content turn "", identity-inv turn "turnId" {s = t} e)
      | inr (e, refused) ↦ ground (arith, is_text-content turn "")
    ]

module _ (client : Client) where
  resume_fields-Ensures : (fs : Fields) → Ensures (IsValid client) (resume_fields client fs)
  unfolding resume_fields
  resume_fields-Ensures fs = Ensures-bind (resume_voice _ _) λ voice v.
      Ensures-bind (refuse_if _ _) λ _ tenant. Ensures-bind (identity _ "channelId") λ channel ch.
        Ensures-bind (identity _ "idempotencyKey") λ key k. Ensures-bind (body _) λ request b.
          Ensures-bind (resume_project _) λ project p. Ensures-bind (decimal _) λ sequence s.
            Ensures-bind (decimal _) λ cursor cu.
              Ensures-bind (resume_coordinates _ _ sequence cursor) λ submission sub.
                Ensures-ok (record {
                  organization = (tenant-inv _ _ _ _ _ _ _ tenant).0;
                  workspace = (tenant-inv _ _ _ _ _ _ _ tenant).1;
                  origin = (tenant-inv _ _ _ _ _ _ _ tenant).2;
                  channel = (identity-inv _ "channelId" ch).1;
                  key = (identity-inv _ "idempotencyKey" k).1;
                  request = body-inv _ b;
                  project = resume_project-inv _ p;
                  sequence = (decimal-inv _ s).0;
                  cursor = (decimal-inv _ cu).0;
                  coordinates =
                      resume_coordinates-inv _ _ sequence cursor sub _ _ (decimal-inv _ s).1
                        (decimal-inv _ cu).1;
                  voice = Ensures-returned _ (resume_voice-Ensures _ _) v;
                })

  resume-Ensures : (v : Value) → Ensures (IsValid client) (resume client v)
  unfolding resume
  resume-Ensures (Value.dict fs) = elim (Bool-cases (has_keys (expected_keys fs) fs)) [
    | inl right ↦ rw right (resume_fields-Ensures fs)
    | inr wrong ↦ rw wrong (Ensures-err _)
  ]
  resume-Ensures v = Ensures-err _

  -- Whatever value an application hands back: a checkpoint that `resume` accepts belongs to the
  -- client's tenant and origin, its request passes the checks of a new one, its cursors are canonical
  -- int64 texts, an accepted one has a turn and a positive sequence, any other has none and stands at
  -- cursor 0, and a voice selection is normalised.
  pub resume-IsValid : (v : Value) {c : Checkpoint} → resume client v ≡ ok c → IsValid client c
  resume-IsValid v h = Ensures-returned (resume client v) (resume-Ensures v) h

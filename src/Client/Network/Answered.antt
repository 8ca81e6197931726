-- ===== src/Client/Network/Answered.antt =====
-- What a call of the client returns.
use deixic_python.Base.{
  ℕ, ◌≤◌, String, true, false, ◌≡◌, refl, sym, ◌∙◌, Option, none, some, List, Result, ok, err,
  Bool-cases, Result-cases, inl, inr, arith,
}
use deixic_python.Base.Post.{Post, returned, raised, Post-bind, Post-weaken, Post-ok}
use deixic_python.Value.{Value}
use deixic_python.Errors.{DeixicError, Response, Content, error_from_response}
use deixic_python.Client.{Config}
use deixic_python.Client.Network.{
  Reply, Network, Connection, is_success, open_call, answered, invalid_response, parse_content,
  or_error, read_unary, unary,
}
use deixic_python.Client.Network.Replay.{IsAttempt, IsReply, Pays, open_call-Post}

-- The bytes of a response, where it is a success and holds some.
pub record IsAnswer {M : Type 0} (parse : List ℕ → Option M) (r : Response) (m : M) : Type 0 where
  pub bytes_found : List ℕ
  pub success : (200 ≤ r.status_code) × (r.status_code ≤ 299)
  pub content_given : r.content ≡ Content.bytes bytes_found
  pub parsed : parse bytes_found ≡ some m

success-range : (n : ℕ) → is_success n ≡ true → (200 ≤ n) × (n ≤ 299)
success-range n h = ground arith

or_error-ok :
    {M : Type 0} (o : Option M) (e : DeixicError) (m : M) → or_error o e ≡ ok m → o ≡ some m
or_error-ok none e m h = cc
or_error-ok (some n) e m h = cc

parse_content-bytes :
    {M : Type 0} (parse : List ℕ → Option M) (c : Content) (m : M)
    → parse_content parse c ≡ some m
    → (b : List ℕ) × (c ≡ Content.bytes b) × (parse b ≡ some m)
parse_content-bytes parse (Content.bytes b) m h = (b, refl, h)
parse_content-bytes parse Content.other m h = cc

err-ok : {M : Type 0} {e : DeixicError} {m : M} → ◌≡◌ {A = Result DeixicError M} (err e) (ok m) → ⊥
err-ok h = cc

module _ (json_loads : List ℕ → Option Value) {M : Type 0} (parse : List ℕ → Option M) where
  read_unary-IsAnswer :
      (r : Response) (m : M) → read_unary json_loads parse r ≡ ok m → IsAnswer parse r m
  unfolding read_unary
  read_unary-IsAnswer r m h = elim (Bool-cases (is_success r.status_code)) [
    | inl good ↦
        let (b, given, parsed) = parse_content-bytes parse r.content m (
          or_error-ok _ (invalid_response r.status_code) m
            (sym (rw (read_unary, good) refl) ∙ h)) in
        record {
          bytes_found = b;
          success = success-range r.status_code good;
          content_given = given;
          parsed = parsed;
        }
    | inr bad ↦ absurd (
        err-ok {e = error_from_response json_loads r} {m = m} (sym (rw (read_unary, bad) refl) ∙ h))
  ]

  module _ (N : Network) (config : Config) (method : String) (body : List ℕ)
      (timeout : Option Value) where
    -- A measure that says nothing.
    free : Pays N (IsAttempt config method body false timeout) (λ k w. Unit)
    free = record {
      by_exchange = λ q k w a h. tt;
      by_get = λ k w h. tt;
      by_refresh = λ c k w h. tt;
      by_close = λ r k w h. tt;
    }

    -- A reply to an attempt of the call, which holds the message.
    abbrev pub IsAnswered : M → Type 0
    IsAnswered m =
        (reply : Reply) × IsReply N config method body false timeout reply
        × IsAnswer parse reply.response m

    answered-Post :
        (reply : Reply) (s : Connection N.World)
        → IsReply N config method body false timeout reply
        → Post
            (λ m _. IsAnswered m)
            (λ _. Unit)
            (answered N config json_loads (read_unary json_loads parse reply.response) s)
    answered-Post reply s replied =
        elim (Result-cases (read_unary json_loads parse reply.response)) [
          | inl (m, e) ↦
              rw e (returned m s (reply, replied, read_unary-IsAnswer reply.response m e))
          | inr (x, e) ↦ rw e (raised _ s tt)
        ]

    unary-Post :
        (s : Connection N.World)
        → Post
            (λ m _. IsAnswered m)
            (λ _. Unit)
            (unary N config json_loads parse method body timeout s)
    unfolding unary
    unary-Post s =
        Post-bind (open_call N config method body false timeout) _ s
          (Post-weaken {R = λ r _. IsReply N config method body false timeout r} {K = λ _. Unit} _
            (open_call-Post N config method body false timeout (λ k w. Unit) free s tt)
            (λ _ _ x. x.1) (λ _ _. tt))
          λ reply u _ replied.
            answered-Post reply (record u { world = N.close reply u.world }) replied

    -- What `_unary` returns was parsed from the bytes of a response with a status of 200 to 299, with
    -- which the transport answered an attempt of this very call: one with the call's bytes, method and
    -- timeout, the tenant and address of the client, and a credential that is safe in a header.
    pub unary-IsAnswered :
        (s t : Connection N.World) (m : M)
        → unary N config json_loads parse method body timeout s ≡ (ok m, t)
        → IsAnswered m
    unary-IsAnswered s t m h =
        Post-ok (unary N config json_loads parse method body timeout s) h (unary-Post s)

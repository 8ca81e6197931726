-- ===== src/Client/Network/Replay.antt =====
-- What a call of the client sends.
use deixic_python.Base.{
  ℕ, suc, String, Bool, ◌&&◌, ◌≡◌, refl, sym, subst, Option, List, ok, Bool-cases, inl, inr, ◌==◌,
}
use deixic_python.Base.Post.{Post, returned, raised, Post-bind, Post-weaken}
use deixic_python.Value.{Value}
use deixic_python.Auth.{Credential, Identity, check, check_refresh}
use deixic_python.Auth.Headers.{IsHeaderSafe, check-IsHeaderSafe}
use deixic_python.Auth.Refresh.{check_refresh-ok}
use deixic_python.Client.{Config}
use deixic_python.Client.Network.{
  HttpRequest, Reply, Network, Connection, reach, judge, is_bad_timeout, http_request, send,
  send_again, open_call,
}
use deixic_python.Client.Network.Steps.{reaches, transports, judges}

-- A request that is one attempt of a call: the call's method, bytes and timeout, the client's tenant,
-- and a credential that is safe in a header.
abbrev pub IsAttempt : Config → String → List ℕ → Bool → Option Value → HttpRequest → Type 0
IsAttempt config method body stream timeout q =
    (c : Credential) × IsHeaderSafe c × (q ≡ http_request config method body c stream timeout)

-- A reply to an attempt.
abbrev pub IsReply : (N : Network) → Config → String → List ℕ → Bool → Option Value → Reply → Type 0
IsReply N config method body stream timeout reply =
    (q : HttpRequest) × (v : N.World) × (w : N.World) × IsAttempt config method body stream timeout
      q
    × (N.exchange q v ≡ (ok reply, w))

-- A measure of the world that only a request of a kind lowers, by one at most.
pub record Pays (N : Network) (R : HttpRequest → Type 0) (I : ℕ → N.World → Type 0) : Type 0 where
  pub by_exchange :
      (q : HttpRequest) (k : ℕ) (w : N.World) → R q → I (suc k) w → I k (N.exchange q w).1
  pub by_get : (k : ℕ) (w : N.World) → I k w → I k (N.get_credential w).1
  pub by_refresh : (c : Credential) (k : ℕ) (w : N.World) → I k w → I k (N.refresh_credential c w).1
  pub by_close : (reply : Reply) (k : ℕ) (w : N.World) → I k w → I k (N.close reply w)

accepted-IsHeaderSafe : (c d : Credential) (i j : Identity) → check c i ≡ (ok d, j) → IsHeaderSafe d
accepted-IsHeaderSafe c d i j h =
    let (same, safe) = check-IsHeaderSafe c d i j h in subst IsHeaderSafe (sym same) safe

refreshed-IsHeaderSafe :
    (c r d : Credential) (i j : Identity) → check_refresh c r i ≡ (ok d, j) → IsHeaderSafe d
refreshed-IsHeaderSafe c r d i j h = accepted-IsHeaderSafe r d i j (check_refresh-ok c r d i j h).1

module _ (N : Network) (config : Config) (method : String) (body : List ℕ) (stream : Bool)
    (timeout : Option Value) (I : ℕ → N.World → Type 0)
    (pays : Pays N (IsAttempt config method body stream timeout) I) where
  abbrev Left : ℕ → Connection N.World → Type 0
  Left k s = I k s.world

  -- Some of the budget is left.
  abbrev pub Within : Connection N.World → Type 0
  Within s = (k : ℕ) × I k s.world

  send-Post :
      (c : Credential) (k : ℕ) (s : Connection N.World)
      → IsHeaderSafe c
      → Left (suc k) s
      → Post
          (λ r t. Left k t × IsReply N config method body stream timeout r)
          Within
          (send N config method body c stream timeout s)
  unfolding send
  send-Post c k s safe h =
      let q = http_request config method body c stream timeout in
      let attempt : IsAttempt config method body stream timeout q = (c, safe, refl) in
      let paid = pays.by_exchange q k s.world attempt h in
      elim (Bool-cases (is_bad_timeout timeout)) [
        | inl bad ↦ rw bad (raised _ s (suc k, h))
        | inr good ↦ rw good (
            transports "Deixic transport failed" (N.exchange q) s
              (λ r e. (paid, (q, s.world, (N.exchange q s.world).1, attempt, e))) (k, paid))
      ]

  send_again-Post :
      (c : Credential) (k : ℕ) (reply : Reply) (s : Connection N.World)
      → Left (suc k) s
      → Post
          (λ r t. Within t × IsReply N config method body stream timeout r)
          Within
          (send_again N config method body c stream timeout reply s)
  unfolding send_again
  send_again-Post c k reply s h =
      let g = pays.by_close reply (suc k) s.world h in
      Post-bind (reach (N.refresh_credential c)) _ _
        (reaches {Q = λ _. Left (suc k)} (N.refresh_credential c)
          (record s { world = N.close reply s.world }) (λ _ _. pays.by_refresh c (suc k) _ g)
          (suc k, pays.by_refresh c (suc k) _ g))
        λ refreshed t _ l.
          Post-bind (judge (check_refresh c refreshed)) _ t
            (judges {Q = λ d u. Left (suc k) u × IsHeaderSafe d} (check_refresh c refreshed) t
              (λ d e. (l, refreshed-IsHeaderSafe c refreshed d t.identity _ e)) (suc k, l))
            λ d u _ (m, safe).
              Post-weaken _ (send-Post d k u safe m) (λ r v (left, replied). ((k, left), replied))
                (λ v w. w)

  pub open_call-Post :
      (s : Connection N.World)
      → Left 2 s
      → Post
          (λ r t. Within t × IsReply N config method body stream timeout r)
          Within
          (open_call N config method body stream timeout s)
  unfolding open_call
  open_call-Post s h =
      Post-bind (reach N.get_credential) _ s
        (reaches {Q = λ _. Left 2} N.get_credential s (λ _ _. pays.by_get 2 s.world h)
          (2, pays.by_get 2 s.world h))
        λ given t _ g.
          Post-bind (judge (check given)) _ t
            (judges {Q = λ d u. Left 2 u × IsHeaderSafe d} (check given) t
              (λ d e. (g, accepted-IsHeaderSafe given d t.identity _ e)) (2, g))
            λ current u _ (l, safe).
              Post-bind (send N config method body current stream timeout) _ u
                (send-Post current 1 u safe l)
                λ reply v _ (m, replied).
                  elim (Bool-cases (reply.response.status_code == 401 && N.can_refresh)) [
                    | inl again ↦ rw again (send_again-Post current 0 reply v m)
                    | inr settled ↦ rw settled (returned reply v ((1, m), replied))
                  ]

-- A measure that one kind of request lowers is lowered by each narrower kind.
pub Pays-narrow :
    {N : Network} {R T : HttpRequest → Type 0} {I : ℕ → N.World → Type 0}
    → ((q : HttpRequest) → T q → R q)
    → Pays N R I
    → Pays N T I
Pays-narrow f p = record {
  by_exchange = λ q k w t h. p.by_exchange q k w (f q t) h;
  by_get = p.by_get;
  by_refresh = p.by_refresh;
  by_close = p.by_close;
}

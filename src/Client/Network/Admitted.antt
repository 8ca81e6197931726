-- ===== src/Client/Network/Admitted.antt =====
-- Which credentials a call of the client sends.
use deixic_python.Base.{
  ℕ, ◌≤◌, String, Bool, true, ◌&&◌, ◌≡◌, refl, sym, ◌∙◌, subst, Option, none, some, List, [], ◌∷◌,
  length, ok, Bool-cases, inl, inr, ◌==◌, arith,
}
use deixic_python.Base.Post.{Post, returned, raised, Post-bind, Post-weaken, Post-state}
use deixic_python.Value.{Value}
use deixic_python.Auth.{
  Credential, Identity, clean, scope_set, is_some, refusal, commit, check, check-accepts,
  check_refresh,
}
use deixic_python.Auth.Headers.{IsHeaderSafe, check-IsHeaderSafe}
use deixic_python.Auth.Stability.{
  SameScopes, Remembers, Follows, InTenant, subject_agrees, organization_agrees, workspace_agrees,
  scopes_agree, same_set-SameScopes, tenant_clear-InTenant, accepted-Follows, commit-Remembers_new,
}
use deixic_python.Auth.Refresh.{check_refresh-ok}
use deixic_python.Client.{Config}
use deixic_python.Client.Network.{
  Reply, Network, Connection, reach, judge, is_bad_timeout, http_request, send, send_again,
  open_call,
}
use deixic_python.Client.Network.Steps.{reaches, transports, judges}

-- What a client that has come to know `i` demands of a credential: it is safe in a header, belongs to
-- the client's tenant as far as it declares one, names the subject that is known, still declares an
-- organization and a workspace where they were declared, and has the scopes that are known.
pub record IsAdmitted (i : Identity) (c : Credential) : Type 0 where
  pub header_safe : IsHeaderSafe c
  pub in_tenant : InTenant i.organization_id i.workspace_id c
  pub subject_known : (a : String) → i.subject ≡ some a → clean c.subject ≡ some a
  pub organization_declared :
      i.declared_organization ≡ true → is_some (clean c.organization_id) ≡ true
  pub workspace_declared : i.declared_workspace ≡ true → is_some (clean c.workspace_id) ≡ true
  pub scopes_known : (old : List String) → i.scopes ≡ some old → SameScopes (scope_set c.scopes) old

-- What the credential of a second attempt owes to that of the first one: both name the same subject,
-- and the organization, the workspace and the scopes that the first one declared are declared again.
pub record IsRenewal (d c : Credential) : Type 0 where
  pub subject_named : (a : String) × (clean d.subject ≡ some a) × (clean c.subject ≡ some a)
  pub declared_again : Follows d c

-- The credentials that may be sent behind those that were sent, the last of which comes first: there
-- is no third one.
abbrev pub MaySend : Identity → List Credential → Credential → Type 0
MaySend i [] c = IsAdmitted i c
MaySend i (d ∷ []) c = IsAdmitted i c × IsRenewal d c
MaySend i (d ∷ e ∷ sent) c = ⊥

-- A record of the credentials that were sent, the last one first, kept by the world: only a request of
-- the call adds to it, with a credential that may be sent.
pub record Log (N : Network) (config : Config) (method : String) (body : List ℕ) (stream : Bool)
    (timeout : Option Value) (i : Identity) (K : List Credential → N.World → Type 0) : Type 0 where
  pub by_exchange :
      (c : Credential) (sent : List Credential) (w : N.World)
      → MaySend i sent c
      → K sent w
      → K (c ∷ sent) (N.exchange (http_request config method body c stream timeout) w).1
  pub by_get : (sent : List Credential) (w : N.World) → K sent w → K sent (N.get_credential w).1
  pub by_refresh :
      (c : Credential) (sent : List Credential) (w : N.World)
      → K sent w
      → K sent (N.refresh_credential c w).1
  pub by_close :
      (reply : Reply) (sent : List Credential) (w : N.World) → K sent w → K sent (N.close reply w)

accepted-IsAdmitted :
    (c d : Credential) (i j : Identity)
    → check c i ≡ (ok d, j)
    → IsAdmitted i d × (refusal i d ≡ none) × (j ≡ commit d i)
accepted-IsAdmitted c d i j h =
    let (same, clear, known) = check-accepts c d i j h in
    subst (λ x. IsAdmitted i x × (refusal i x ≡ none) × (j ≡ commit x i)) (sym same)
      (
        record {
          header_safe = (check-IsHeaderSafe c d i j h).1;
          in_tenant = tenant_clear-InTenant i c clear;
          subject_known = subject_agrees i c clear;
          organization_declared = organization_agrees i c clear;
          workspace_declared = workspace_agrees i c clear;
          scopes_known =
              λ old e. same_set-SameScopes (scope_set c.scopes) old (scopes_agree i c clear old e);
        },
        clear,
        known,
      )

-- What is admitted behind a credential was admitted before it.
commit-IsAdmitted :
    (d c : Credential) (i : Identity)
    → refusal i d ≡ none
    → IsAdmitted (commit d i) c
    → IsAdmitted i c
unfolding commit
commit-IsAdmitted d c i clear x = record {
  header_safe = x.header_safe;
  in_tenant = x.in_tenant;
  subject_known = λ a e. ground (arith, x.subject_known a, subject_agrees i d clear a);
  organization_declared = λ e. ground (arith, x.organization_declared);
  workspace_declared = λ e. ground (arith, x.workspace_declared);
  scopes_known = λ old e. x.scopes_known old (ground arith);
}

renewed-MaySend :
    (d r c : Credential) (i j k : Identity)
    → refusal i d ≡ none
    → j ≡ commit d i
    → check_refresh d r j ≡ (ok c, k)
    → MaySend i (d ∷ []) c
renewed-MaySend d r c i j k clear known h =
    let (named, accepted) = check_refresh-ok d r c j k h in
    let (same, again, _) = check-accepts r c j k accepted in
    let admitted = (accepted-IsAdmitted r c j k accepted).0 in
    (
      commit-IsAdmitted d c i clear (subst (λ x. IsAdmitted x c) known admitted),
      subst (IsRenewal d) (sym same) (record {
        subject_named = named;
        declared_again =
            accepted-Follows d r j
              (subst (Remembers d) (sym known) (commit-Remembers_new d i clear)) again;
      }),
    )

module _ (N : Network) (config : Config) (method : String) (body : List ℕ) (stream : Bool)
    (timeout : Option Value) (i : Identity) (K : List Credential → N.World → Type 0)
    (log : Log N config method body stream timeout i K) where
  -- What was sent is on record.
  abbrev Logged : Connection N.World → Type 0
  Logged s = (sent : List Credential) × K sent s.world × (length sent ≤ 2)

  send-Logged :
      (c : Credential) (sent : List Credential) (s : Connection N.World)
      → MaySend i sent c
      → length sent ≤ 1
      → K sent s.world
      → Post
          (λ _ t. K (c ∷ sent) t.world × (t.identity ≡ s.identity))
          Logged
          (send N config method body c stream timeout s)
  unfolding send
  send-Logged c sent s may few h =
      let q = http_request config method body c stream timeout in
      let written = log.by_exchange c sent s.world may h in
      elim (Bool-cases (is_bad_timeout timeout)) [
        | inl bad ↦ rw bad (raised _ s (sent, h, omega arith))
        | inr good ↦ rw good (
            transports "Deixic transport failed" (N.exchange q) s (λ _ _. (written, refl))
              (c ∷ sent, written, omega arith))
      ]

  send_again-Logged :
      (d : Credential) (reply : Reply) (s : Connection N.World)
      → refusal i d ≡ none
      → s.identity ≡ commit d i
      → K (d ∷ []) s.world
      → Post (λ _. Logged) Logged (send_again N config method body d stream timeout reply s)
  unfolding send_again
  send_again-Logged d reply s clear known h =
      let sent = d ∷ [] in
      let closed : Connection N.World = record s { world = N.close reply s.world } in
      let g = log.by_refresh d sent closed.world (log.by_close reply sent s.world h) in
      Post-bind (reach (N.refresh_credential d)) _ closed
        (reaches {Q = λ _ t. K sent t.world × (t.identity ≡ commit d i)} (N.refresh_credential d)
          closed (λ _ _. (g, known)) (sent, g, omega arith))
        λ refreshed t _ (l, kept).
          Post-bind (judge (check_refresh d refreshed)) _ t
            (judges {Q = λ c u. K sent u.world × MaySend i sent c} (check_refresh d refreshed) t
              (λ c e. (l, renewed-MaySend d refreshed c i t.identity _ clear kept e))
              (sent, l, omega arith))
            λ c u _ (m, may).
              Post-weaken _ (send-Logged c sent u may (omega arith) m)
                (λ _ v (n, _). (c ∷ sent, n, omega arith)) (λ v w. w)

  open_call-Logged :
      (s : Connection N.World)
      → s.identity ≡ i
      → K [] s.world
      → Post (λ _. Logged) Logged (open_call N config method body stream timeout s)
  unfolding open_call
  open_call-Logged s known h =
      let g = log.by_get [] s.world h in
      Post-bind (reach N.get_credential) _ s
        (reaches {Q = λ _ t. K [] t.world × (t.identity ≡ i)} N.get_credential s (λ _ _. (g, known))
          ([], g, omega arith))
        λ given t _ (l, kept).
          Post-bind (judge (check given)) _ t
            (judges
              {Q = λ d u.
                K [] u.world × IsAdmitted i d × (refusal i d ≡ none) × (u.identity ≡ commit d i)}
              (check given) t
              (λ d e.
                let (admitted, clear, committed) =
                  accepted-IsAdmitted given d i _
                    (subst (λ j. check given j ≡ (ok d, (check given t.identity).1)) kept e) in
                (l, admitted, clear, committed))
              ([], l, omega arith))
            λ d u _ (m, admitted, clear, committed).
              Post-bind (send N config method body d stream timeout) _ u
                (send-Logged d [] u admitted (omega arith) m)
                λ reply v _ (n, same).
                  elim (Bool-cases (reply.response.status_code == 401 && N.can_refresh)) [
                    | inl again ↦ rw again (send_again-Logged d reply v clear (same ∙ committed) n)
                    | inr settled ↦ rw settled (returned reply v (d ∷ [], n, omega arith))
                  ]

-- Whatever a transport and a provider do, a call of the client sends at most two requests: its own
-- bytes with its method and timeout, in the name of the client's tenant. The first credential is one
-- that the client's identity, as the call found it, admits: safe in a header, of the client's tenant
-- as far as it declares one, of the known subject, and with the organization, workspace and scopes
-- that earlier credentials declared. The second one is admitted as well, names the same subject as
-- the first, and declares again what the first declared. Stated of any record of the credentials
-- that only such a request extends, whether the call returns or raises.
pub open_call-Log :
    (N : Network) (config : Config) (method : String) (body : List ℕ) (stream : Bool)
    (timeout : Option Value) (K : List Credential → N.World → Type 0) (s : Connection N.World)
    → Log N config method body stream timeout s.identity K
    → K [] s.world
    → (sent : List Credential) × K sent (open_call N config method body stream timeout s).1.world
      × (length sent ≤ 2)
open_call-Log N config method body stream timeout K s log h =
    let Written : Connection N.World → Type 0 =
      λ t. (sent : List Credential) × K sent t.world × (length sent ≤ 2) in
    Post-state Written (open_call N config method body stream timeout s)
      (open_call-Logged N config method body stream timeout s.identity K log s refl h) (λ _ t w. w)
      (λ t w. w)

-- ===== src/Auth/Refresh.antt =====
-- What a refusal leaves behind, and what a refresh hands on.
use deixic_python.Base.{
  String, true, ◌≡◌, refl, Option, none, some, List, ok, err, Bool-cases, inl, inr, arith,
}
use deixic_python.Base.Text.{text_eq_iff}
use deixic_python.Errors.{DeixicError, authentication, authentication_error}
use deixic_python.Auth.{
  Credential, Identity, clean, scope_set, header_refusal, tenant_refusal, principal_refusal,
  refusal, check, same_subject, check_refresh,
}

-- Every error of the list of tests.
header_refusal-kind :
    (c : Credential) (e : DeixicError) → header_refusal c ≡ some e → e.kind ≡ authentication
unfolding header_refusal authentication_error
header_refusal-kind c e h = ground arith

tenant_refusal-kind :
    (i : Identity) (o w : Option String) (e : DeixicError)
    → tenant_refusal i o w ≡ some e
    → e.kind ≡ authentication
unfolding tenant_refusal authentication_error
tenant_refusal-kind i o w e h = ground arith

principal_refusal-kind :
    (i : Identity) (s : Option String) (xs : List String) (e : DeixicError)
    → principal_refusal i s xs ≡ some e
    → e.kind ≡ authentication
unfolding principal_refusal authentication_error
principal_refusal-kind i s xs e h = ground arith

refusal-kind :
    (i : Identity) (c : Credential) (e : DeixicError)
    → refusal i c ≡ some e
    → e.kind ≡ authentication
unfolding refusal
refusal-kind i c e h = ground (
  arith,
  header_refusal-kind c e,
  tenant_refusal-kind i (clean c.organization_id) (clean c.workspace_id) e,
  principal_refusal-kind i (clean c.subject) (scope_set c.scopes) e,
)

-- A credential that is refused leaves no trace: the identity is as before, and the error is one
-- of authentication.
pub check-refused :
    (c : Credential) (i j : Identity) (e : DeixicError)
    → check c i ≡ (err e, j)
    → (j ≡ i) × (e.kind ≡ authentication)
unfolding check
check-refused c i j e h = ground (arith, refusal-kind i c e)

same_subject-inv :
    (a b : Option String) → same_subject a b ≡ true → (s : String) × (a ≡ some s) × (b ≡ some s)
same_subject-inv none b h = cc
same_subject-inv (some a) none h = cc
same_subject-inv (some a) (some b) h = (a, refl, ground (arith, text_eq_iff b a))

-- A refreshed credential is handed on for a second attempt only where both credentials name the same
-- subject, and only if the client's identity accepts it as well.
pub check_refresh-ok :
    (current refreshed d : Credential) (i j : Identity)
    → check_refresh current refreshed i ≡ (ok d, j)
    → ((s : String) × (clean current.subject ≡ some s) × (clean refreshed.subject ≡ some s))
      × (check refreshed i ≡ (ok d, j))
unfolding check_refresh
check_refresh-ok current refreshed d i j h =
    elim (Bool-cases (same_subject (clean current.subject) (clean refreshed.subject))) [
      | inl same ↦ (same_subject-inv _ _ same, ground arith)
      | inr changed ↦ ground arith
    ]

-- ===== src/Auth/Stability.antt =====
-- What stays the same over all credentials that one identity accepts.
use deixic_python.Base.{
  String, true, false, ◌≡◌, refl, sym, ◌∙◌, arith, Option, none, some, List, [], ◌∷◌, All, text_eq,
  Result, ok, err, all, any, inl, inr, Option-cases, Bool-cases, and_iff,
}
use deixic_python.Base.Text.{text_eq_iff}
use mathlib.Core.Path.{subst₂}
use deixic_python.Errors.{DeixicError}
use deixic_python.Auth.{
  Credential, Identity, fresh, clean, contains, same_set, scope_set, is_some, no_items, refusal,
  tenant_refusal, principal_refusal, commit, check, check-ok, check-err, kept_scopes,
}

-- Two lists of the same scopes.
abbrev pub SameScopes : List String → List String → Type 0
SameScopes xs ys = (x : String) → contains xs x ≡ contains ys x

all-contains :
    (xs ys : List String) (x : String)
    → all (contains ys) xs ≡ true
    → contains xs x ≡ true
    → contains ys x ≡ true
unfolding all any
all-contains [] ys x h m = cc
all-contains (y ∷ xs) ys x h m = elim (Bool-cases (text_eq x y)) [
  | inl e ↦ rw ((text_eq_iff x y).0 e) (ground arith)
  | inr e ↦ all-contains xs ys x (ground arith) (ground arith)
]

pub same_set-SameScopes : (xs ys : List String) → same_set xs ys ≡ true → SameScopes xs ys
unfolding same_set
same_set-SameScopes xs ys h x = ground (
  arith,
  all-contains xs ys x,
  all-contains ys xs x,
  and_iff (all (contains ys) xs) (all (contains xs) ys),
)

-- What the identity keeps of a credential `d` that it has accepted.
pub record Remembers (d : Credential) (i : Identity) : Type 0 where
  subject_kept : (s : String) → clean d.subject ≡ some s → i.subject ≡ some s
  organization_kept : is_some (clean d.organization_id) ≡ true → i.declared_organization ≡ true
  workspace_kept : is_some (clean d.workspace_id) ≡ true → i.declared_workspace ≡ true
  scopes_kept :
      no_items (scope_set d.scopes) ≡ false
      → (old : List String) × (i.scopes ≡ some old) × SameScopes (scope_set d.scopes) old

-- What a credential `c` owes to a credential `d` that was accepted before it.
pub record Follows (d c : Credential) : Type 0 where
  pub subject_stays : (s : String) → clean d.subject ≡ some s → clean c.subject ≡ some s
  pub organization_stays :
      is_some (clean d.organization_id) ≡ true → is_some (clean c.organization_id) ≡ true
  pub workspace_stays :
      is_some (clean d.workspace_id) ≡ true → is_some (clean c.workspace_id) ≡ true
  pub scopes_stay :
      no_items (scope_set d.scopes) ≡ false → SameScopes (scope_set d.scopes) (scope_set c.scopes)

module _ (i : Identity) (c : Credential) (clear : refusal i c ≡ none) where
  tenant_clear : tenant_refusal i (clean c.organization_id) (clean c.workspace_id) ≡ none
  unfolding refusal
  tenant_clear = ground arith

  principal_clear : principal_refusal i (clean c.subject) (scope_set c.scopes) ≡ none
  unfolding refusal
  principal_clear = ground arith

  pub subject_agrees : (s : String) → i.subject ≡ some s → clean c.subject ≡ some s
  unfolding principal_refusal
  subject_agrees s h = ground (arith, principal_clear)

  pub organization_agrees :
      i.declared_organization ≡ true → is_some (clean c.organization_id) ≡ true
  unfolding tenant_refusal
  organization_agrees h = ground (arith, tenant_clear)

  pub workspace_agrees : i.declared_workspace ≡ true → is_some (clean c.workspace_id) ≡ true
  unfolding tenant_refusal
  workspace_agrees h = ground (arith, tenant_clear)

  pub scopes_agree :
      (old : List String) → i.scopes ≡ some old → same_set (scope_set c.scopes) old ≡ true
  unfolding principal_refusal
  scopes_agree old h = ground (arith, principal_clear)

pub accepted-Follows :
    (d c : Credential) (i : Identity) → Remembers d i → refusal i c ≡ none → Follows d c
accepted-Follows d c i m clear = record {
  subject_stays = λ s h. subject_agrees i c clear s (m.subject_kept s h);
  organization_stays = λ h. organization_agrees i c clear (m.organization_kept h);
  workspace_stays = λ h. workspace_agrees i c clear (m.workspace_kept h);
  scopes_stay = λ h.
      let (old, kept, same) = m.scopes_kept h in
      λ x.
        same x
        ∙ sym (same_set-SameScopes (scope_set c.scopes) old (scopes_agree i c clear old kept) x);
}

-- An accepted credential leaves what the identity already had.
commit-Remembers :
    (d c : Credential) (i : Identity)
    → Remembers d i
    → refusal i c ≡ none
    → Remembers d (commit c i)
unfolding commit
commit-Remembers d c i m clear = record {
  subject_kept = λ s h. ground (arith, m.subject_kept s, subject_agrees i c clear s);
  organization_kept = λ h. ground (arith, m.organization_kept h);
  workspace_kept = λ h. ground (arith, m.workspace_kept h);
  scopes_kept = λ h. let (old, kept, same) = m.scopes_kept h in (old, ground arith, same);
}

commit-scopes :
    (before : Option (List String)) (new : List String)
    → ((old : List String) → before ≡ some old → same_set new old ≡ true)
    → no_items new ≡ false
    → (old : List String) × (kept_scopes before new ≡ some old) × SameScopes new old
commit-scopes none [] agree h = cc
commit-scopes none (x ∷ xs) agree h = (x ∷ xs, refl, λ y. refl)
commit-scopes (some old) new agree h = (old, refl, same_set-SameScopes new old (agree old refl))

pub commit-Remembers_new :
    (c : Credential) (i : Identity) → refusal i c ≡ none → Remembers c (commit c i)
unfolding commit
commit-Remembers_new c i clear = record {
  subject_kept = λ s h. ground arith;
  organization_kept = λ h. ground arith;
  workspace_kept = λ h. ground arith;
  scopes_kept =
      λ h. commit-scopes i.scopes (scope_set c.scopes) (λ old e. scopes_agree i c clear old e) h;
}

-- The credentials of a sequence that the identity accepts, one call of `check` after the other.
abbrev keep : Result DeixicError Credential → List Credential → List Credential
keep (ok c) rest = c ∷ rest
keep (err e) rest = rest

unfoldable pub accepted : List Credential → Identity → List Credential
accepted [] i = []
accepted (c ∷ cs) i = let (r, j) = check c i in keep r (accepted cs j)

-- The step of `accepted`, by what `refusal` says.
accepted-ok :
    (c : Credential) (cs : List Credential) (i : Identity)
    → refusal i c ≡ none
    → accepted (c ∷ cs) i ≡ c ∷ accepted cs (commit c i)
unfolding accepted
accepted-ok c cs i h = rw (check-ok c i h, accepted)

accepted-err :
    (c : Credential) (cs : List Credential) (i : Identity) (e : DeixicError)
    → refusal i c ≡ some e
    → accepted (c ∷ cs) i ≡ accepted cs i
unfolding accepted
accepted-err c cs i e h = rw (check-err c i e h, accepted)

-- A property of what is accepted, by induction on the calls: `P` holds of the identity throughout.
accepted-All {ℓ κ} :
    (P : Identity → Type ℓ) (Q : Credential → Type κ)
    → ((c : Credential) (i : Identity) → P i → refusal i c ≡ none → Q c × P (commit c i))
    → (cs : List Credential) (i : Identity) → P i
    → All Q (accepted cs i)
accepted-All P Q step [] i p = unfold accepted in tt
accepted-All P Q step (c ∷ cs) i p = elim (Option-cases (refusal i c)) [
  | inl clear ↦
      rw (accepted-ok c cs i clear)
        ((step c i p clear).0, accepted-All P Q step cs (commit c i) (step c i p clear).1)
  | inr (e, refused) ↦ rw (accepted-err c cs i e refused) (accepted-All P Q step cs i p)
]

-- Each credential of a list is followed by the later ones.
abbrev pub IsStable : List Credential → Type 0
IsStable [] = Unit
IsStable (d ∷ cs) = All (Follows d) cs × IsStable cs

-- Whatever credentials a provider returns in turn, those that the client accepts keep the principal:
-- a subject, once given, is given again unchanged, a declared organization and workspace are declared
-- again, and scopes that are not empty stay the same set.
pub accepted-IsStable : (cs : List Credential) (i : Identity) → IsStable (accepted cs i)
accepted-IsStable [] i = unfold accepted in tt
accepted-IsStable (c ∷ cs) i = elim (Option-cases (refusal i c)) [
  | inl clear ↦ rw (accepted-ok c cs i clear) (
    accepted-All (Remembers c) (Follows c)
        (λ d j m h. (accepted-Follows c d j m h, commit-Remembers c d j m h)) cs (commit c i)
        (commit-Remembers_new c i clear),
    accepted-IsStable cs (commit c i),
  )
  | inr (e, refused) ↦ rw (accepted-err c cs i e refused) (accepted-IsStable cs i)
]

-- The tenant that a credential declares, where it declares one, is the given one.
pub record InTenant (organization workspace : String) (c : Credential) : Type 0 where
  pub organization_fits : (s : String) → clean c.organization_id ≡ some s → s ≡ organization
  pub workspace_fits : (s : String) → clean c.workspace_id ≡ some s → s ≡ workspace

pub tenant_clear-InTenant :
    (i : Identity) (c : Credential)
    → refusal i c ≡ none
    → InTenant i.organization_id i.workspace_id c
unfolding tenant_refusal
tenant_clear-InTenant i c clear = record {
  organization_fits = λ s h. ground (arith, tenant_clear i c clear);
  workspace_fits = λ s h. ground (arith, tenant_clear i c clear);
}

-- Every credential that a client accepts belongs to the organization and workspace for which the
-- client was made, as far as it declares one.
pub accepted-InTenant :
    (cs : List Credential) (organization workspace : String)
    → All (InTenant organization workspace) (accepted cs (fresh organization workspace))
unfolding commit
accepted-InTenant cs organization workspace =
    accepted-All (λ i. (i.organization_id ≡ organization) × (i.workspace_id ≡ workspace))
      (InTenant organization workspace)
      (λ c i p h. (subst₂ (λ o w. InTenant o w c) p.0 p.1 (tenant_clear-InTenant i c h), p)) cs
      (fresh organization workspace) (refl, refl)

-- ===== src/ControlPlane/Offboard.antt =====
-- An account that is disabled stays out: what is kept of it, and what that says of later requests.
pub mod Resolve
pub mod Answer
use light_waf.Prelude.{
  ◌≡◌, refl, ◌≢◌, ℕ, ◌+◌, ◌<◌, ◌==◌, ==_iff, Bool, true, false, not, inl, inr, List, [], ◌∷◌, ◌++◌,
  Option, none, some, Bytes, codes, All, All-filterb, any, find, map, Bool-cases, Option-cases,
  ◌=bytes◌, if◌then◌else◌, arith,
}
use light_waf.Governance.Audit.{AuditRecord}
use light_waf.Governance.Rbac.{Role, as_str}
use light_waf.Governance.Store.{UserRow, TokenRow, Database}
use light_waf.Governance.Store.Queries.{
  update, has_id, named, oidc, create_user, set_user_role, set_user_disabled, delete_user,
  set_password_hash, update_user, upsert_oidc_user, create_token, revoke_token,
}
use light_waf.ControlPlane.Server.{Libraries}
use light_waf.ControlPlane.Server.Keeps.{Stable}
use light_waf.ControlPlane.Keeps.{DrawsAny, KeepsSessions, KeepsAccounts}
use light_waf.ControlPlane.Keeps.Tables.{Of, sessions_keep}

module _ (id : ℕ) where
  -- a row of the account says that it is disabled
  abbrev pub IsOut : UserRow → Type 0
  IsOut u = u.id ≡ id → u.disabled ≡ true

  -- the id has been given, and whoever has it is disabled
  abbrev pub IsDisabled : List UserRow → ℕ → List TokenRow → List AuditRecord → Type 0
  IsDisabled users next_user tokens log = (id < next_user) × All IsOut users

  -- an account is enabled only if it is another
  abbrev pub Elsewhere : ℕ → Bool → Type 0
  Elsewhere i b = i ≡ id → b ≡ true

All-update {ℓ} :
    {A : Type ℓ} (P : A → Type 0) (test : A → Bool) (change : A → A) (rows : List A)
    → ((a : A) → test a ≡ true → P a → P (change a))
    → All P rows
    → All P (update test change rows)
All-update P test change [] keep h = tt
All-update P test change (a ∷ rows) keep h = elim (Bool-cases (test a)) [
  | inl picked ↦ rw picked (keep a picked h.0, All-update P test change rows keep h.1)
  | inr other ↦ rw other (h.0, All-update P test change rows keep h.1)
]

All-snoc {ℓ} :
    {A : Type ℓ} (P : A → Type 0) (rows : List A) (a : A)
    → All P rows
    → P a
    → All P (rows ++ (a ∷ []))
All-snoc P [] a h p = (p, tt)
All-snoc P (b ∷ rows) a h p = (h.0, All-snoc P rows a h.1 p)

module _ (lib : Libraries) (id : ℕ) where
  create_user_leaves :
      (username hash : Bytes) (role : Role) (now : ℕ)
      → Stable (Of (IsDisabled id)) (create_user lib.debug username hash role now)
  unfolding create_user
  create_user_leaves username hash role now d h = elim (Bool-cases (any (named username) d.users)) [
    | inl taken ↦ rw (taken, create_user) (omega arith, h.1)
    | inr new ↦
        rw (new, create_user)
          (omega arith, All-snoc (IsOut id) d.users _ h.1 (λ same. absurd (omega arith)))
  ]

  update_leaves :
      (i : ℕ) (change : UserRow → UserRow) (d : Database)
      → ((u : UserRow) → has_id i u ≡ true → IsOut id u → IsOut id (change u))
      → Of (IsDisabled id) d
      → Of (IsDisabled id) (update_user i change d).1
  unfolding update_user
  update_leaves i change d keep h = (h.0, All-update (IsOut id) (has_id i) change d.users keep h.1)

  upsert_leaves :
      (username : Bytes) (role : Role) (now : ℕ)
      → Stable (Of (IsDisabled id)) (upsert_oidc_user lib.debug username role now)
  unfolding upsert_oidc_user
  upsert_leaves username role now d h = elim (Option-cases (find (named username) d.users)) [
    | inl missing ↦
        rw (missing, upsert_oidc_user)
          (omega arith, All-snoc (IsOut id) d.users _ h.1 (λ same. absurd (omega arith)))
    | inr (u, found) ↦ elim (Bool-cases (u.auth_source =bytes oidc)) [
      | inl federated ↦
          rw (found, upsert_oidc_user)
            (rw federated
              (omega arith, All-update (IsOut id) (named username) _ d.users (λ v _ out. out) h.1))
      | inr owned ↦ rw (found, upsert_oidc_user) (rw owned (omega arith, h.1))
    ]
  ]

  create_token_leaves :
      (name hash : Bytes) (role : Role) (now : ℕ)
      → Stable (Of (IsDisabled id)) (create_token lib.debug name hash role now)
  unfolding create_token
  create_token_leaves name hash role now d h =
      elim (Bool-cases (any (λ (t : TokenRow). t.name =bytes name) d.tokens)) [
        | inl taken ↦ rw (taken, create_token) h
        | inr new ↦ rw (new, create_token) h
      ]

  pub IsDisabled-keep : KeepsAccounts lib (Elsewhere id) (Of (IsDisabled id))
  unfolding set_user_role set_user_disabled set_password_hash delete_user revoke_token
  IsDisabled-keep = record {
    create_user_keeps = create_user_leaves;
    set_user_role_keeps = λ i role d h. update_leaves i _ d (λ u _ out. out) h;
    set_user_disabled_keeps = λ i b elsewhere d h.
        update_leaves i (λ u. record u { disabled = b }) d
          (λ u picked out same. elsewhere (ground (arith, (==_iff u.id i).0 picked))) h;
    delete_user_keeps = λ i d h. (h.0, All-filterb (IsOut id) (λ u. not (has_id i u)) d.users h.1);
    set_password_keeps = λ i hash d h. update_leaves i _ d (λ u _ out. out) h;
    upsert_keeps = upsert_leaves;
    create_token_keeps = create_token_leaves;
    revoke_token_keeps = λ i d h. h;
  }

  pub IsDisabled-sessions : KeepsSessions lib DrawsAny (Of (IsDisabled id))
  IsDisabled-sessions = sessions_keep (IsDisabled id) lib (λ _ _ _ _ _ _ h. h)

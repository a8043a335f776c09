-- ===== src/ControlPlane/Accounts.antt =====
-- crates/waf-controlplane/src/gov_api.rs: the handlers of an administrator, for users and service tokens.
use light_waf.Prelude.{ℕ, Bool, false, not, ◌||◌, Option, none, some, Bytes, codes, decimal}
use light_waf.Schema.Value.{Value, null, bool, number, string, object, member_and, no_members}
use light_waf.Governance.Rbac.{Role}
use light_waf.Governance.Store.{Result, ok}
use light_waf.Governance.Store.Queries
use light_waf.ControlPlane.Server.{
  Principal, text, json, users, tokens, Response, Libraries, Env, M, ◌>>=◌, ◌>>◌, pure, done,
  on_pool, reply, or_500, or_conflict, or_else, if_so, one_field, no_fields, role_json, audit,
}
use light_waf.ControlPlane.Auth.{hash_token}
use light_waf.ControlPlane.Login.{hashed}

pub record CreateUserBody : Type 0 where
  pub username : Bytes
  pub password : Bytes
  pub role : Role

pub record UpdateUserBody : Type 0 where
  pub role : Option Role
  pub disabled : Option Bool

pub record ResetPasswordBody : Type 0 where
  pub new_password : Bytes

pub record CreateTokenBody : Type 0 where
  pub name : Bytes
  pub role : Role

-- `id.to_string()`
abbrev pub id_text : ℕ → Option Bytes
id_text id = some (decimal id)

-- `Some(d)` as JSON
abbrev option_json {ℓ} : {A : Type ℓ} → (A → Value) → Option A → Value
option_json f none = null
option_json f (some a) = f a

-- the two settings of an update; a map of serde_json is ordered by its keys
unfoldable pub update_json : UpdateUserBody → Value
update_json body = object (
    member_and (codes "disabled") (option_json bool body.disabled)
      (member_and (codes "role") (option_json role_json body.role) no_members))

abbrev pub ok_text : Response
ok_text = reply 200 (text (codes "ok"))

abbrev pub nothing_changed : Response
nothing_changed = reply 404 (text (codes "no such user (or nothing to change)"))

-- `body.disabled == Some(true)`
abbrev pub is_true : Option Bool → Bool
is_true none = false
is_true (some b) = b

-- a change that is only made where the body names one; whether a row was changed
unfoldable pub change {ℓ} : {A : Type ℓ} → Option A → (A → M (Result Bool)) → M (Result Bool)
unfolding or_else pure
change o f = or_else o (pure (ok false)) f

module _ (lib : Libraries) (env : Env) where
  unfoldable pub list_users : M Response
  unfolding on_pool Queries.list_users or_500 ◌>>=◌ pure
  list_users = do found ← on_pool Queries.list_users; or_500 found λ l. pure (reply 200 (users l))

  unfoldable pub create_user : CreateUserBody → Principal → M Response
  unfolding hashed or_500 or_conflict on_pool Queries.create_user audit ◌>>=◌ pure
  create_user body p = or_500 (hashed (env.hash_password body.password)) λ hash. (do
    created ← on_pool (Queries.create_user lib.debug body.username hash body.role env.now)
    or_conflict created (λ msg. pure (reply 409 (text msg)))
        λ id. (do
          audit lib env p.actor (codes "user.create") (some body.username)
              (one_field (codes "role") (role_json body.role))
          pure (reply 201 (json (one_field (codes "id") (number (decimal id)))))))

  -- after the changes: the sessions of a disabled user go, whether or not that succeeds
  unfoldable pub updated : ℕ → UpdateUserBody → Principal → M Response
  unfolding if_so on_pool Queries.delete_sessions_for_user update_json audit ◌>>=◌ pure
  updated id body p = do
    if_so (is_true body.disabled) (do on_pool (Queries.delete_sessions_for_user id); done) (done)
    audit lib env p.actor (codes "user.update") (id_text id) (update_json body)
    pure ok_text

  unfoldable pub update_user : ℕ → UpdateUserBody → Principal → M Response
  unfolding if_so or_500 on_pool Queries.set_user_role Queries.set_user_disabled ◌>>=◌ pure
  update_user id body p = do
    role_set ← change body.role (λ role. on_pool (Queries.set_user_role id role))
    or_500 role_set λ changed_role. (do
      disabled_set ←
          change body.disabled (λ disabled. on_pool (Queries.set_user_disabled id disabled))
      or_500 disabled_set λ changed_disabled.
          if_so (not (changed_role || changed_disabled)) (pure nothing_changed) (updated id body p))

  unfoldable pub delete_user : ℕ → Principal → M Response
  unfolding or_500 if_so on_pool Queries.delete_user audit ◌>>=◌ pure
  delete_user id p = do
    deleted ← on_pool (Queries.delete_user id)
    or_500 deleted λ gone.
        if_so gone
          (do audit lib env p.actor (codes "user.delete") (id_text id) no_fields; pure ok_text)
          (pure (reply 404 (text (codes "no such user"))))

  unfoldable pub revoke_user_sessions : ℕ → Principal → M Response
  unfolding or_500 on_pool Queries.delete_sessions_for_user audit ◌>>=◌ pure
  revoke_user_sessions user_id p = do
    deleted ← on_pool (Queries.delete_sessions_for_user user_id)
    or_500 deleted λ n. (do
      let revoked = one_field (codes "revoked") (number (decimal n))
      audit lib env p.actor (codes "session.revoke_all") (id_text user_id) revoked
      pure (reply 200 (json revoked)))

  unfoldable pub reset_password : ℕ → ResetPasswordBody → Principal → M Response
  unfolding hashed or_500 if_so on_pool Queries.set_password_hash Queries.delete_sessions_for_user
      audit ◌>>=◌ pure
  reset_password id body p = or_500 (hashed (env.hash_password body.new_password)) λ new_hash. (do
    changed ← on_pool (Queries.set_password_hash id new_hash)
    or_500 changed λ there.
        if_so there
          (do
            on_pool (Queries.delete_sessions_for_user id)
            audit lib env p.actor (codes "password.reset") (id_text id) no_fields
            pure ok_text)
          (pure (reply 404 (text (codes "no such user")))))

  unfoldable pub create_token : CreateTokenBody → Principal → M Response
  unfolding hash_token or_conflict on_pool Queries.create_token audit ◌>>=◌ pure
  create_token body p = do
    let secret = env.generate_token
    created ←
        on_pool (Queries.create_token lib.debug body.name (hash_token lib secret) body.role env.now)
    or_conflict created (λ msg. pure (reply 409 (text msg)))
        λ id. (do
          audit lib env p.actor (codes "token.create") (some body.name)
              (one_field (codes "role") (role_json body.role))
          pure (
              reply 201 (
                json (
                  object (
                    member_and (codes "id") (number (decimal id)) (
                      member_and (codes "name") (string body.name) (
                        member_and (codes "role") (role_json body.role)
                          (member_and (codes "token") (string secret) no_members))))))))

  unfoldable pub list_tokens : M Response
  unfolding on_pool Queries.list_tokens or_500 ◌>>=◌ pure
  list_tokens = do
    found ← on_pool Queries.list_tokens
    or_500 found λ l. pure (reply 200 (tokens l))

  unfoldable pub revoke_token : ℕ → Principal → M Response
  unfolding or_500 if_so on_pool Queries.revoke_token audit ◌>>=◌ pure
  revoke_token id p = do
    changed ← on_pool (Queries.revoke_token id)
    or_500 changed λ there.
        if_so there
          (do audit lib env p.actor (codes "token.revoke") (id_text id) no_fields; pure ok_text)
          (pure (reply 404 (text (codes "no such token"))))

-- ===== src/ControlPlane/Tests/Keys.antt =====
-- Runs of the theorems on revoked sessions, on the states of federated logins and on the check of the log.
use light_waf.Prelude.{
  length, ◌≡◌, ◌≢◌, refl, true, false, =bytes_iff, none, some, [], ◌∷◌, Bytes, codes, split, trim,
  ◌=bytes◌,
}
use light_waf.Governance.Audit.{append_audit, verify_chain, verify_from}
use light_waf.Governance.Throttle.{allowed, record_success, new_throttle}
use light_waf.Prelude.Dict.{=bytes_same, get}
use light_waf.ControlPlane.AuditLog.{report, verify_audit}
use light_waf.ControlPlane.Accountable.{check, serve-check}
use light_waf.Governance.Rbac.{viewer, as_str, from_str, allows, rank}
use light_waf.Governance.Store.{query, row_to_user, with_role}
use light_waf.Governance.Store.Queries.{
  all_audit_ordered, get_user_with_hash, get_session_with_user, list_sessions_for_user,
  newest_first, delete_session, take_oidc_flow, upsert_oidc_user, named, create_session,
}
use light_waf.ControlPlane.Server.{
  json, ask_throttle, on_throttle, Env, Settings, AppState, verified, ◌>>=◌, pure, on_pool, or_500,
  or_else, or_conflict, if_so, audit,
}
use light_waf.ControlPlane.Auth.{
  session_id_in, session_id_from_cookies, session_principal, of_session, look_up, or_next,
  by_session, resolve_principal, require,
}
use light_waf.ControlPlane.Login
use light_waf.ControlPlane.Router.{handle, serve, serve_all}
use light_waf.ControlPlane.Revoked.{revoke, IsElse, resolve_principal-revoke}
use light_waf.ControlPlane.Replay.{callback, IsRefused, serve-callback}
use light_waf.ControlPlane.Tests.{lib, settings, env, tables, state, as_root, as_bob, bob_logs_in}

apart : (a b : Bytes) → (a =bytes b) ≡ false → a ≢ b
apart a b h e = absurd (cc (h, (=bytes_iff a b).1 e))

s3_is_new : codes "s3" ≢ codes "s2"
unfolding ◌=bytes◌
s3_is_new = apart (codes "s3") (codes "s2") refl

st_is_new : codes "st" ≢ codes "f1"
unfolding ◌=bytes◌
st_is_new = apart (codes "st") (codes "f1") refl

revoke_is_answered : (serve lib settings (revoke (codes "s2") as_bob env) state).0.status ≡ 200
unfolding serve handle require resolve_principal by_session look_up or_else or_next if_so or_500
    allows rank session_id_from_cookies session_id_in split trim on_pool query get_session_with_user
    row_to_user with_role from_str of_session session_principal as_str ◌=bytes◌ Login.revoke_session
    list_sessions_for_user newest_first delete_session audit append_audit ◌>>=◌ pure
revoke_is_answered = refl

resolve_principal-revoke_example :
    IsElse
      (codes "s2")
      (resolve_principal lib settings env as_bob (
        serve_all lib settings
          (bob_logs_in ∷ [])
          (serve lib settings (revoke (codes "s2") as_bob env) state).1)).0
resolve_principal-revoke_example =
    resolve_principal-revoke lib settings (codes "s2") as_bob as_bob env env (bob_logs_in ∷ [])
      state revoke_is_answered (s3_is_new, tt)

-- a provider, and a login of it that is under way
abbrev federated : Settings
federated = record settings { oidc = true }

abbrev provider : Env
provider = record env {
  verify_callback = λ c v n. verified (record { username = codes "ann"; role = viewer });
}

abbrev under_way : AppState
under_way = record state {
  pool = record {
    database = record tables {
      flows =
          record {
            state = codes "f1";
            pkce_verifier = codes "v";
            nonce = codes "n";
            created_at = 0;
          }
          ∷ [];
    };
    outages = [];
  };
}

callback_is_answered :
    (serve lib federated
      (callback (codes "f1") (some (codes "c")) none as_root provider)
      under_way).0.status
    ≡ 302
unfolding serve handle if_so or_else or_500 or_conflict on_pool query take_oidc_flow
    Login.oidc_callback Login.sso_user Login.sso_session upsert_oidc_user named row_to_user
    with_role from_str as_str create_session audit append_audit ◌=bytes◌ ◌>>=◌ pure
callback_is_answered = refl

serve-callback_example :
    IsRefused lib federated (callback (codes "f1") (some (codes "d")) none as_bob provider) (
      serve_all lib federated
        (bob_logs_in ∷ [])
        (serve lib federated
          (callback (codes "f1") (some (codes "c")) none as_root provider)
          under_way).1)
serve-callback_example =
    serve-callback lib federated (codes "f1") (some (codes "c")) none (some (codes "d")) none
      as_root as_bob provider provider (bob_logs_in ∷ []) under_way callback_is_answered st_is_new
      (st_is_new, tt)

empty_log : verify_chain lib.sha256 lib.hex_encode lib.verify_signature tables.audit_log ≡ none
unfolding verify_chain verify_from
empty_log = refl

check_is_answered :
    (serve lib settings
      (check as_root env)
      (serve_all lib settings (bob_logs_in ∷ []) state)).0.status
    ≡ 200
unfolding serve_all serve handle require resolve_principal by_session look_up or_else or_next if_so
    or_500 allows rank session_id_from_cookies session_id_in split trim on_pool query
    get_session_with_user row_to_user with_role from_str of_session session_principal as_str
    ◌=bytes◌ Login.login Login.login_as Login.open_session Login.checked ask_throttle on_throttle
    allowed record_success get_user_with_hash named create_session audit append_audit verify_audit
    all_audit_ordered get new_throttle ◌>>=◌ pure
check_is_answered = refl

serve-check_example :
    (serve lib settings
      (check as_root env)
      (serve_all lib settings (bob_logs_in ∷ []) state)).0.body
    ≡ json (
        report
          (codes "key")
          (length (serve_all lib settings (bob_logs_in ∷ []) state).pool.database.audit_log)
          none)
serve-check_example =
    serve-check lib settings (λ hash. =bytes_same hash) (λ now. refl) (bob_logs_in ∷ []) as_root env
      state empty_log check_is_answered

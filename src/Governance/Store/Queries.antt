-- ===== src/Governance/Store/Queries.antt =====
-- crates/waf-governance/src/store.rs: each query as a step on the tables.
pub mod Users
pub mod Sessions
pub mod Tokens
pub mod Log
unfoldable pub use light_waf.Governance.Store.Queries.Users.{
  local, oidc, update, count_users, named, create_user, get_user_with_hash, list_users, has_id,
  update_user, set_user_role, set_user_disabled, set_password_hash, delete_user, upsert_oidc_user,
}
unfoldable pub use light_waf.Governance.Store.Queries.Sessions.{
  create_session, is_live, get_session_with_user, delete_sessions, delete_session,
  delete_expired_sessions, delete_sessions_for_user, delete_other_sessions_for_user, newest_first,
  list_sessions_for_user, count_active_sessions,
}
unfoldable pub use light_waf.Governance.Store.Queries.Tokens.{
  create_token, is_active, find_active_token, list_tokens, revoke_token, put_oidc_flow,
  take_oidc_flow, prune_oidc_flows,
}
unfoldable pub use light_waf.Governance.Store.Queries.Log.{
  recent_audit, all_audit_ordered, audit_between, audit_since, audit_max_seq,
}

-- ===== src/Governance/Store/Queries/Tokens.antt =====
-- crates/waf-governance/src/store.rs: the queries on service tokens and on the logins under way at a provider.
use mathlib.Core.Option
use light_waf.Prelude.{
  ℕ, ◌+◌, ◌*◌, ◌^◌, Bool, true, false, not, ◌&&◌, Option, none, some, List, [], ◌∷◌, ◌++◌, Bytes,
  codes, any, filterb, find, length, ltb, ◌==◌, ◌=bytes◌, if◌then◌else◌,
}
use light_waf.Governance.Rbac.{Role, as_str}
use light_waf.Governance.Store.{
  TokenRow, FlowRow, Database, ServiceToken, conflict, db, Result, ok, err, with_role, read_all,
}
use light_waf.Governance.Store.Queries.Users.{update}

unfoldable pub create_token :
    (Bytes → Bytes) → Bytes → Bytes → Role → ℕ → Database → Result ℕ × Database
create_token debug name token_hash role now d =
    if any (λ (t : TokenRow). t.name =bytes name) d.tokens
    then (
      err (conflict (codes "token name " ++ (debug name ++ codes " already exists"))),
      record d { next_token = d.next_token + 1 },
    )
    else (
      ok d.next_token,
      record d {
        tokens =
            d.tokens
            ++ (record {
              id = d.next_token;
              name = name;
              token_hash = token_hash;
              role = as_str role;
              revoked = false;
              created_at = now;
            }
                ∷ []);
        next_token = d.next_token + 1;
      },
    )

abbrev pub is_active : Bytes → TokenRow → Bool
is_active token_hash t = t.token_hash =bytes token_hash && not t.revoked

unfoldable pub find_active_token : Bytes → Database → Result (Option (Bytes × Role)) × Database
unfolding with_role
find_active_token token_hash d = elim (find (is_active token_hash) d.tokens) [
  | none ↦ (ok none, d)
  | some t ↦ (with_role t.role (λ role. some (t.name, role)), d)
]

unfoldable pub list_tokens : Database → Result (List ServiceToken) × Database
unfolding read_all with_role
list_tokens d = (
  read_all
      (λ (t : TokenRow). with_role t.role λ role. record {
        id = t.id;
        name = t.name;
        role = role;
        revoked = t.revoked;
        created_at = t.created_at;
      })
      d.tokens,
  d,
)

unfoldable pub revoke_token : ℕ → Database → Result Bool × Database
revoke_token id d = (
  ok (any (λ (t : TokenRow). t.id == id) d.tokens),
  record d {
    tokens = update (λ (t : TokenRow). t.id == id) (λ t. record t { revoked = true }) d.tokens;
  },
)

unfoldable pub put_oidc_flow : Bytes → Bytes → Bytes → ℕ → Database → Result (Unit {0}) × Database
put_oidc_flow state pkce_verifier nonce now d =
    if any (λ (f : FlowRow). f.state =bytes state) d.flows then (err db, d) else (
      ok tt,
      record d {
        flows =
            record { state = state; pkce_verifier = pkce_verifier; nonce = nonce; created_at = now }
            ∷ d.flows;
      },
    )

unfoldable pub take_oidc_flow : Bytes → Database → Result (Option (Bytes × Bytes)) × Database
take_oidc_flow state d = (
  ok (
      Option.map (λ (f : FlowRow). (f.pkce_verifier, f.nonce))
        (find (λ (f : FlowRow). f.state =bytes state) d.flows)),
  record d { flows = filterb (λ (f : FlowRow). not (f.state =bytes state)) d.flows },
)

-- an age of `older_than_secs` seconds, which are not negative
unfoldable pub prune_oidc_flows : ℕ → ℕ → Database → Result ℕ × Database
prune_oidc_flows older_than_secs now d =
    let stale = λ (f : FlowRow). ltb (f.created_at + older_than_secs * 10 ^ 9) now in
    (ok (length (filterb stale d.flows)), record d { flows = filterb (λ f. not (stale f)) d.flows })

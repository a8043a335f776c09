-- ===== src/ControlPlane/Auth.antt =====
-- crates/waf-controlplane/src/gov_api.rs: the session cookie, and who a request comes from; `check_bearer`
-- of server.rs and `hash_token` of waf-governance/src/token.rs.
use light_waf.Prelude.{
  ℕ, ◌/◌, ◌^◌, Bool, false, not, ◌&&◌, ◌||◌, Option, none, some, List, [], ◌∷◌, ◌++◌, Bytes, codes,
  all, is_empty, leb, ◌==◌, ◌=bytes◌, strip_prefix, split, trim, decimal, if◌then◌else◌,
}
use light_waf.Governance.Audit.{sha256_hex}
use light_waf.Governance.Rbac.{Role, admin, Permission, allows}
use light_waf.Governance.Store.{Session, User, Result, ok, err}
use light_waf.Governance.Store.Queries
use light_waf.ControlPlane.Server.{
  session, token, Principal, Response, text, Headers, Libraries, Settings, Env, M, ◌>>=◌, pure,
  on_pool, reply, or_else, if_so,
}

abbrev pub session_cookie : Bytes
session_cookie = codes "waf_cp_session"

-- `HeaderValue::to_str`: the text of a header without other characters than the visible ones of ASCII
abbrev pub to_str : Bytes → Option Bytes
to_str value = if all (λ c. c == 9 || leb 32 c && leb c 126) value then some value else none

-- the value of the session cookie in the first part that has one
unfoldable pub session_id_in : List Bytes → Option Bytes
session_id_in [] = none
session_id_in (part ∷ parts) =
    let rest = session_id_in parts in
    elim (strip_prefix (session_cookie ++ codes "=") (trim part)) [
      | none ↦ rest
      | some v ↦ if not (is_empty v) then some v else rest
    ]

unfoldable pub session_id_from_cookies : Headers → Option Bytes
unfolding session_id_in
session_id_from_cookies headers = elim headers.cookie [
  | none ↦ none
  | some value ↦ elim (to_str value) [
    | none ↦ none
    | some cookie ↦ session_id_in (split b';' cookie)
  ]
]

abbrev secured : Bool → Bytes → Bytes
secured secure c = if secure then c ++ codes "; Secure" else c

unfoldable pub set_cookie : Bytes → ℕ → Bool → Bytes
set_cookie sid ttl secure = secured secure (
    session_cookie
    ++ (codes "="
        ++ (sid
            ++ (codes "; HttpOnly; SameSite=Strict; Path=/; Max-Age=" ++ decimal (ttl / 10 ^ 9)))))

unfoldable pub clear_cookie : Bool → Bytes
clear_cookie secure =
    secured secure (session_cookie ++ codes "=; HttpOnly; SameSite=Strict; Path=/; Max-Age=0")

abbrev pub bearer : Bytes → Option Bytes
bearer h = strip_prefix (codes "Bearer ") h

unfoldable pub check_bearer : Option Bytes → Bytes → Bool
check_bearer none secret = false
check_bearer (some h) secret = elim (bearer h) [ none ↦ false | some t ↦ t =bytes secret ]

-- the header's text, where it has one
abbrev pub presented : Headers → Option Bytes
presented headers = elim headers.authorization [ none ↦ none | some h ↦ to_str h ]

unfoldable pub session_principal : Session → User → Principal
session_principal s user = record {
  actor = user.username;
  role = user.role;
  via = session;
  user_id = some user.id;
  session_id = some s.id;
}

unfoldable pub token_principal : Bytes → Role → Principal
token_principal name role = record {
  actor = name;
  role = role;
  via = token;
  user_id = none;
  session_id = none;
}

-- the principal of a session that was found, if its user is not disabled
unfoldable pub of_session : Result (Option (Session × User)) → Option Principal
unfolding session_principal
of_session (err e) = none
of_session (ok none) = none
of_session (ok (some (s, user))) =
    if not user.disabled then some (session_principal s user) else none

unfoldable pub of_token : Result (Option (Bytes × Role)) → Option Principal
unfolding token_principal
of_token (err e) = none
of_token (ok none) = none
of_token (ok (some (name, role))) = some (token_principal name role)

-- a query that is only made for a value that is there
unfoldable pub look_up : Option Bytes → (Bytes → M (Option Principal)) → M (Option Principal)
unfolding or_else pure
look_up o f = or_else o (pure none) f

-- the first that is found
unfoldable pub or_next : Option Principal → M (Option Principal) → M (Option Principal)
unfolding pure
or_next (some p) m = pure (some p)
or_next none m = m

module _ (lib : Libraries) where
  unfoldable pub hash_token : Bytes → Bytes
  unfolding sha256_hex
  hash_token t = sha256_hex lib.sha256 lib.hex_encode t

  unfoldable pub by_session : Env → Headers → M (Option Principal)
  by_session env headers = look_up (session_id_from_cookies headers) λ sid. (do
    found ← on_pool (Queries.get_session_with_user sid env.now)
    pure (of_session found))

  unfoldable pub by_token : Headers → M (Option Principal)
  by_token headers =
      look_up (elim (presented headers) [ none ↦ none | some h ↦ bearer h ])
        λ t. (do found ← on_pool (Queries.find_active_token (hash_token t)); pure (of_token found))

  -- the static bearer is an admin
  unfoldable pub by_bearer : Option Bytes → Headers → Option Principal
  unfolding check_bearer token_principal
  by_bearer api_token headers = elim api_token [
    | none ↦ none
    | some t ↦
        if check_bearer (presented headers) t
        then some (token_principal (codes "api-token") admin)
        else none
  ]

  unfoldable pub resolve_principal : Settings → Env → Headers → M (Option Principal)
  resolve_principal settings env headers = do
    by_cookie ← by_session env headers
    or_next by_cookie
        (do named ← by_token headers; or_next named (pure (by_bearer settings.api_token headers)))

  -- a handler behind the check of a permission
  unfoldable pub require :
      Settings → Permission → Env → Headers → (Principal → M Response) → M Response
  require settings perm env headers next = do
    found ← resolve_principal settings env headers
    or_else found (pure (reply 401 (text (codes "unauthorized"))))
        λ p. if_so (not (allows p.role perm)) (pure (reply 403 (text (codes "forbidden")))) (next p)

-- ===== src/Governance/Store.antt =====
-- crates/waf-governance/src/store.rs and schema.sql, with the rows of model.rs: accounts, sessions, service
-- tokens and login flows. `append_audit` is in Governance.Audit.
--
-- A table is the list of its rows in the order of their insertion, which is the order of the ids that a
-- sequence gives; a number of a sequence is used up by a refused insert as well. A time is its number of
-- nanoseconds. A query is one step on the tables, and `now()` is the time given to it. The connection may
-- be lost at a query, before it has taken effect or after it: `outages` holds what becomes of the queries
-- to come, and past its end each is answered.
pub mod Queries
pub mod Reads
use light_waf.Prelude.{ℕ, Bool, Option, none, some, List, [], ◌∷◌, Bytes, if◌then◌else◌}
use light_waf.Governance.Audit.{AuditRecord}
use light_waf.Governance.Rbac.{Role, from_str}

pub record UserRow : Type 0 where
  pub id : ℕ
  pub username : Bytes
  pub password_hash : Option Bytes
  pub role : Bytes
  pub disabled : Bool
  pub auth_source : Bytes
  pub created_at : ℕ

pub record Session : Type 0 where
  pub id : Bytes
  pub user_id : ℕ
  pub created_at : ℕ
  pub expires_at : ℕ

pub record TokenRow : Type 0 where
  pub id : ℕ
  pub name : Bytes
  pub token_hash : Bytes
  pub role : Bytes
  pub revoked : Bool
  pub created_at : ℕ

pub record FlowRow : Type 0 where
  pub state : Bytes
  pub pkce_verifier : Bytes
  pub nonce : Bytes
  pub created_at : ℕ

pub record Database : Type 0 where
  pub users : List UserRow
  pub next_user : ℕ
  pub sessions : List Session
  pub tokens : List TokenRow
  pub next_token : ℕ
  pub flows : List FlowRow
  pub audit_log : List AuditRecord

-- what a read of the tables gives
pub record User : Type 0 where
  pub id : ℕ
  pub username : Bytes
  pub role : Role
  pub disabled : Bool
  pub auth_source : Bytes
  pub created_at : ℕ

pub record UserWithHash : Type 0 where
  pub user : User
  pub password_hash : Option Bytes

pub record ServiceToken : Type 0 where
  pub id : ℕ
  pub name : Bytes
  pub role : Role
  pub revoked : Bool
  pub created_at : ℕ

-- `conflict` holds its message
pub data Error : Type 0 where
  db config password : Error
  conflict : Bytes → Error

pub data Result {ℓ} (A : Type ℓ) : Type ℓ where
  ok : A → Result A
  err : Error → Result A

pub data Outage : Type 0 where
  answered lost_before lost_after : Outage

pub record Pool : Type 0 where
  pub database : Database
  pub outages : List Outage

-- what a query gives and leaves
abbrev settle {ℓ} :
    {A : Type ℓ} → Outage → Database → List Outage → Result A × Database → Result A × Pool
settle answered before outages (r, after) = (r, record { database = after; outages = outages })
settle lost_before before outages (r, after) =
    (err db, record { database = before; outages = outages })
settle lost_after before outages (r, after) =
    (err db, record { database = after; outages = outages })

unfoldable pub query {ℓ} : {A : Type ℓ} → (Database → Result A × Database) → Pool → Result A × Pool
query f p = elim p.outages [
  | [] ↦ settle answered p.database [] (f p.database)
  | outage ∷ rest ↦ settle outage p.database rest (f p.database)
]

-- `Role::from_str(role)?`, under which a row is read
unfoldable pub with_role {ℓ} : {A : Type ℓ} → Bytes → (Role → A) → Result A
with_role role make = elim (from_str role) [ none ↦ err config | some r ↦ ok (make r) ]

unfoldable pub row_to_user : UserRow → Result User
unfolding with_role
row_to_user u = with_role u.role λ role. record {
  id = u.id;
  username = u.username;
  role = role;
  disabled = u.disabled;
  auth_source = u.auth_source;
  created_at = u.created_at;
}

-- every row read, or the first error
unfoldable pub read_all {ℓ κ} :
    {A : Type ℓ} {B : Type κ} → (A → Result B) → List A → Result (List B)
read_all f [] = ok []
read_all f (a ∷ rows) = elim (f a) [
  | err e ↦ err e
  | ok b ↦ elim (read_all f rows) [ err e ↦ err e | ok bs ↦ ok (b ∷ bs) ]
]

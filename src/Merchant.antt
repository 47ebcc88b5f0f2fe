-- ===== src/Merchant.antt =====
-- src/merchant.rs: the API keys of a merchant's site.
pub mod Access
use Prim.Native.String
use spritexai_pay_core.Prelude.{
  ℕ, String, Bool, true, false, ◌&&◌, Option, none, some, List, [], ◌∷◌, ◌++◌, ◌==◌, if◌then◌else◌,
}
use spritexai_pay_core.Crates.{Crates}
use spritexai_pay_core.Crypto.{sign}
use spritexai_pay_core.Db.{
  Tables, ApiKey, KeyStatus, is_active, Result, ok, err, DbError, unique_violation, Env, World, M,
  pure, ◌>>=◌, ◌>>◌, Stmt, exec, new_v4, any, first, update, newest_first,
}

abbrev pub key_domain : String
key_domain = "api-key"

pub record CreateApiKey : Type 0 where
  pub label : Option String
  pub scopes : Option (List String)

pub record NewApiKey : Type 0 where
  pub id : String
  pub label : Option String
  pub scopes : List String
  pub api_key : String

-- The columns that `ApiKeyRow` reads: the digest is not one of them.
pub record ApiKeyRow : Type 0 where
  pub id : String
  pub label : Option String
  pub scopes : String
  pub status : KeyStatus
  pub created_at : ℕ
  pub last_used_at : Option ℕ

pub record KeyContext : Type 0 where
  pub id : String
  pub scopes : List String

abbrev or_empty : Option (List String) → List String
or_empty none = []
or_empty (some l) = l

unfoldable pub parse_scopes : Crates → String → List String
parse_scopes c raw = or_empty (c.json_strings_of raw)

-- Both scopes, when none or an empty list is asked for.
abbrev pub scopes_of : Option (List String) → List String
scopes_of (some (s ∷ ss)) = s ∷ ss
scopes_of _ = "create_payment" ∷ "verify_payment" ∷ []

unfoldable pub insert_key : ApiKey → Stmt Unit
insert_key row t db =
    if any (λ r. r.id == row.id) db.api_keys
    then err unique_violation
    else if any (λ r. r.key_sha256 == row.key_sha256) db.api_keys
    then err unique_violation
    else ok (tt, record db { api_keys = db.api_keys ++ record row { created_at = t } ∷ [] })

abbrev pub has_active_digest : String → ApiKey → Bool
has_active_digest digest r = r.key_sha256 == digest && is_active r.status

unfoldable pub select_active_key : String → Stmt (Option ApiKey)
select_active_key digest t db = ok (first (has_active_digest digest) db.api_keys, db)

unfoldable pub stamp_key : String → Stmt Unit
stamp_key id t db = ok (
  tt,
  record db {
    api_keys = update (λ r. r.id == id) (λ r. record r { last_used_at = some t }) db.api_keys;
  },
)

unfoldable pub set_revoked : String → Stmt Bool
set_revoked id t db = ok (
  any (λ r. r.id == id) db.api_keys,
  record db {
    api_keys = update (λ r. r.id == id) (λ r. record r { status = KeyStatus.revoked }) db.api_keys;
  },
)

abbrev rows_of : List ApiKey → List ApiKeyRow
rows_of [] = []
rows_of (k ∷ ks) =
    record {
      id = k.id;
      label = k.label;
      scopes = k.scopes;
      status = k.status;
      created_at = k.created_at;
      last_used_at = k.last_used_at;
    }
    ∷ rows_of ks

unfoldable pub select_keys : Stmt (List ApiKeyRow)
select_keys t db = ok (rows_of (newest_first (λ r. r.created_at) db.api_keys), db)

module _ (env : Env) where
  unfoldable pub list_api_keys : M DbError (List ApiKeyRow)
  list_api_keys = exec env select_keys

  unfoldable pub revoke_api_key : String → M DbError Bool
  revoke_api_key id = exec env (set_revoked id)

  module _ (c : Crates) where
    unfoldable pub create_api_key : CreateApiKey → M DbError NewApiKey
    create_api_key req = do
      uuid ← new_v4 env
      raw_0 ← new_v4 env
      raw_1 ← new_v4 env
      let id = String.◌++◌ "ak_" uuid
      let raw = String.◌++◌ "spk_" (String.◌++◌ raw_0 raw_1)
      exec env (
          insert_key (record {
            id = id;
            key_sha256 = sign c key_domain raw;
            label = req.label;
            scopes = c.json_strings (scopes_of req.scopes);
            status = KeyStatus.active;
            created_at = 0;
            last_used_at = none;
          }))
      pure (record { id = id; label = req.label; scopes = scopes_of req.scopes; api_key = raw })

    -- `verify_api_key` from the row that the digest selects on.
    unfoldable pub admit : String → Option ApiKey → M DbError (Option KeyContext)
    admit required_scope none w = (ok none, w)
    admit required_scope (some k) w =
        let scopes = parse_scopes c k.scopes in
        if any (λ s. s == required_scope) scopes
        then (exec env (stamp_key k.id) >> pure (some (record { id = k.id; scopes = scopes }))) w
        else (ok none, w)

    unfoldable pub verify_api_key : String → String → M DbError (Option KeyContext)
    verify_api_key raw required_scope = do
      row ← exec env (select_active_key (sign c key_domain raw))
      admit required_scope row

-- ===== src/Domain.antt =====
-- src/domain.rs: the whitelist of hosts for `return_url` and `webhook_url`.
pub mod Url
pub mod Whitelist
use Prim.Native.String
use spritexai_pay_core.Prelude.{
  ℕ, String, Bool, true, false, eqb, Option, none, some, List, [], ◌∷◌, ◌++◌, ◌==◌, before,
  after_first, if◌then◌else◌,
}
use spritexai_pay_core.Db.{
  newest_first, Tables, AllowedDomain, Result, ok, err, DbError, unique_violation, row_not_found,
  Env, World, M, pure, lift, ok_or, ◌>>=◌, ◌>>◌, Stmt, exec, new_v4, any, first, select, count,
}

unfoldable pub insert_domain : String → String → Stmt Unit
insert_domain id domain t db =
    if any (λ r. r.id == id) db.allowed_domains
    then err unique_violation
    else if any (λ r. r.domain == domain) db.allowed_domains
    then err unique_violation
    else ok (
      tt,
      record db {
        allowed_domains =
            db.allowed_domains ++ record { id = id; domain = domain; created_at = t } ∷ [];
      },
    )

unfoldable pub select_domain : String → Stmt AllowedDomain
select_domain id t db = elim (first (λ r. r.id == id) db.allowed_domains) [
  | none ↦ err row_not_found
  | some d ↦ ok (d, db)
]

unfoldable pub create : Env → String → M DbError AllowedDomain
create env domain = do
  uuid ← new_v4 env
  let id = String.◌++◌ "dom_" uuid
  exec env (insert_domain id domain)
  exec env (select_domain id)

unfoldable pub select_domains : Stmt (List AllowedDomain)
select_domains t db = ok (newest_first (λ r. r.created_at) db.allowed_domains, db)

unfoldable pub list : Env → M DbError (List AllowedDomain)
list env = exec env select_domains

abbrev pub remove : {A : Type 0} → (A → Bool) → List A → List A
remove p [] = []
remove p (x ∷ xs) = if p x then remove p xs else x ∷ remove p xs

-- DELETE FROM allowed_domains WHERE id = ?, and `rows_affected() > 0`.
unfoldable pub delete_domain : String → Stmt Bool
delete_domain id t db = ok (
  any (λ r. r.id == id) db.allowed_domains,
  record db { allowed_domains = remove (λ r. r.id == id) db.allowed_domains },
)

unfoldable pub delete : Env → String → M DbError Bool
delete env id = exec env (delete_domain id)

abbrev or_else : Option String → String → String
or_else none d = d
or_else (some s) d = s

unfoldable pub host_of : String → Option String
host_of url =
    let after_scheme = or_else (after_first "://" url) url in
    let authority = before b'/' after_scheme in
    let host = before b':' authority in if host == "" then none else some host

unfoldable pub count_domains : Stmt ℕ
count_domains t db = ok (count (λ r. true) db.allowed_domains, db)

unfoldable pub find_domain : String → Stmt Bool
find_domain host t db = ok (any (λ r. r.domain == host) db.allowed_domains, db)

-- `is_allowed` once the whitelist is known not to be empty.
unfoldable pub check_host : Env → Option String → M DbError Bool
check_host env none = pure false
check_host env (some host) = exec env (find_domain host)

unfoldable pub is_allowed : Env → Option String → M DbError Bool
is_allowed env none = pure true
is_allowed env (some url) = do
  n ← exec env count_domains
  if eqb n 0 then pure true else check_host env (host_of url)

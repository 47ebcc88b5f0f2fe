-- ===== src/Customer.antt =====
-- src/customer.rs: the address book.
use Prim.Native.String
use spritexai_pay_core.Prelude.{
  ℤ, String, Option, none, some, List, [], ◌∷◌, ◌++◌, ◌==◌, if◌then◌else◌,
}
use spritexai_pay_core.Db.{
  Customer, CustomerStatus, ok, err, DbError, unique_violation, row_not_found, Env, M, ◌>>=◌, ◌>>◌,
  Stmt, exec, new_v4, any, first, newest_first, at_most,
}

pub record CreateCustomer : Type 0 where
  pub name : Option String
  pub email : Option String
  pub msisdn : Option String

unfoldable pub insert_customer : String → CreateCustomer → Stmt Unit
insert_customer id req t db =
    if any (λ r. r.id == id) db.customers
    then err unique_violation
    else ok (
      tt,
      record db {
        customers =
            db.customers
            ++ record {
              id = id;
              name = req.name;
              email = req.email;
              msisdn = req.msisdn;
              status = CustomerStatus.active;
              created_at = t;
            }
              ∷ [];
      },
    )

-- `fetch_optional`, and `fetch_one`, which fails on no row.
unfoldable pub select_customer : String → Stmt (Option Customer)
select_customer id t db = ok (first (λ r. r.id == id) db.customers, db)

unfoldable pub select_one_customer : String → Stmt Customer
select_one_customer id t db = elim (first (λ r. r.id == id) db.customers) [
  | none ↦ err row_not_found
  | some c ↦ ok (c, db)
]

unfoldable pub select_customers : ℤ → Stmt (List Customer)
select_customers limit t db = ok (at_most limit (newest_first (λ r. r.created_at) db.customers), db)

module _ (env : Env) where
  unfoldable pub create : CreateCustomer → M DbError Customer
  create req = do
    uuid ← new_v4 env
    let id = String.◌++◌ "cus_" uuid
    exec env (insert_customer id req)
    exec env (select_one_customer id)

  unfoldable pub list : ℤ → M DbError (List Customer)
  list limit = exec env (select_customers limit)

  unfoldable pub get : String → M DbError (Option Customer)
  get id = exec env (select_customer id)

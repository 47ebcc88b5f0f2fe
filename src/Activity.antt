-- ===== src/Activity.antt =====
-- src/activity.rs: the audit log and its feed.
use spritexai_pay_core.Prelude.{
  ℤ, ℕ, suc, ltb, String, Option, none, some, List, [], ◌∷◌, ◌++◌, if◌then◌else◌,
}
use spritexai_pay_core.Db.{Activity, ok, DbError, Env, M, Stmt, exec, newest_first, at_most}

-- ORDER BY id DESC LIMIT ?
unfoldable pub select_activities : ℤ → Stmt (List Activity)
select_activities limit t db = ok (at_most limit (newest_first (λ r. r.id) db.audit_log), db)

unfoldable pub list : Env → ℤ → M DbError (List Activity)
list env limit = exec env (select_activities limit)

-- `actor.unwrap_or("admin")`
abbrev pub actor_or_admin : Option String → String
actor_or_admin none = "admin"
actor_or_admin (some actor) = actor

-- The greatest id of the table, and zero of an empty one.
abbrev pub max_id : List Activity → ℕ
max_id [] = 0
max_id (r ∷ rs) = if ltb (max_id rs) r.id then r.id else max_id rs

-- INSERT INTO audit_log: an INTEGER PRIMARY KEY that is not given is one more than the greatest.
unfoldable pub insert_activity :
    String → String → String → Option String → Option String → Stmt Unit
insert_activity entity entity_id action actor detail t db = ok (
  tt,
  record db {
    audit_log =
        db.audit_log
        ++ record {
          id = suc (max_id db.audit_log);
          entity = entity;
          entity_id = entity_id;
          action = action;
          actor = actor_or_admin actor;
          detail = detail;
          created_at = t;
        }
          ∷ [];
  },
)

unfoldable pub record_activity :
    Env → String → String → String → Option String → Option String → M DbError Unit
record_activity env entity entity_id action actor detail =
    exec env (insert_activity entity entity_id action actor detail)

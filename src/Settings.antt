-- ===== src/Settings.antt =====
-- src/settings.rs: the key-value store of the dashboard.
pub mod Stored
pub mod Group
use Prim.Native.Char.{code}
use Prim.Native.String
use spritexai_pay_core.Prelude.{
  ℕ, ◌+◌, leb, eqb, String, Bool, true, false, ◌&&◌, ◌||◌, Option, none, some, List, [], ◌∷◌, ◌++◌,
  ◌==◌, if◌then◌else◌,
}
use spritexai_pay_core.Db.{
  Tables, SettingRow, ok, DbError, Env, M, Stmt, exec, any, first, update, select,
}

-- `Option::flatten` of the column
abbrev value_of : Option SettingRow → Option String
value_of none = none
value_of (some r) = r.value

unfoldable pub select_setting : String → Stmt (Option String)
select_setting key t db = ok (value_of (first (λ r. r.key == key) db.settings), db)

-- INSERT … ON CONFLICT(key) DO UPDATE
unfoldable pub upsert : String → String → Stmt Unit
upsert key value t db = ok (
  tt,
  record db {
    settings =
        if any (λ r. r.key == key) db.settings
        then update (λ r. r.key == key) (λ r. record r { value = some value; updated_at = t })
            db.settings
        else db.settings ++ record { key = key; value = some value; updated_at = t } ∷ [];
  },
)

unfoldable pub get : Env → String → M DbError (Option String)
get env key = exec env (select_setting key)

unfoldable pub set : Env → String → String → M DbError Unit
set env key value = exec env (upsert key value)

-- The columns that a settings page reads.
pub record Setting : Type 0 where
  pub key : String
  pub value : Option String

-- SQLite's LIKE folds the case of ASCII letters only.
abbrev pub lower_code : ℕ → ℕ
lower_code c = if leb b'A' c && leb c b'Z' then c + 32 else c

-- A pattern at some suffix of a text.
abbrev pub at_suffix : (String → Bool) → String → Bool
at_suffix p String.[] = p String.[]
at_suffix p (String.◌∷◌ c s) = p (String.◌∷◌ c s) || at_suffix p s

abbrev pub next_char : (ℕ → Bool) → (String → Bool) → String → Bool
next_char test rest String.[] = false
next_char test rest (String.◌∷◌ c s) = test (code c) && rest s

abbrev pub is_empty : String → Bool
is_empty String.[] = true
is_empty (String.◌∷◌ c s) = false

-- `text LIKE pattern`: `%` stands for any text, `_` for any character.
unfoldable pub like : String → String → Bool
like String.[] = is_empty
like (String.◌∷◌ p ps) =
    let rest = like ps in
    if eqb (code p) b'%'
    then at_suffix rest
    else if eqb (code p) b'_'
    then next_char (λ c. true) rest
    else next_char (λ c. eqb (lower_code c) (lower_code (code p))) rest

-- The order of texts by their code points, which is the order of their UTF-8 bytes.
unfoldable pub leb_text : String → String → Bool
leb_text String.[] t = true
leb_text (String.◌∷◌ a s) String.[] = false
leb_text (String.◌∷◌ a s) (String.◌∷◌ b t) =
    let rest = leb_text s t in if eqb (code a) (code b) then rest else leb (code a) (code b)

abbrev pub insert_by_key : SettingRow → List SettingRow → List SettingRow
insert_by_key r [] = r ∷ []
insert_by_key r (s ∷ ss) = if leb_text r.key s.key then r ∷ s ∷ ss else s ∷ insert_by_key r ss

abbrev pub by_key : List SettingRow → List SettingRow
by_key [] = []
by_key (r ∷ rs) = insert_by_key r (by_key rs)

abbrev pub settings_of : List SettingRow → List Setting
settings_of [] = []
settings_of (r ∷ rs) = record { key = r.key; value = r.value } ∷ settings_of rs

abbrev pub group_pattern : String → String
group_pattern group = String.◌++◌ group ".%"

-- SELECT key, value … WHERE key LIKE ? ORDER BY key
unfoldable pub select_group : String → Stmt (List Setting)
select_group group t db =
    ok (settings_of (by_key (select (λ r. like (group_pattern group) r.key) db.settings)), db)

unfoldable pub get_group : Env → String → M DbError (List Setting)
get_group env group = exec env (select_group group)

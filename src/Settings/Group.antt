-- ===== src/Settings/Group.antt =====
-- src/settings.rs: `get_group`, against the prefix that it means.
use Prim.Native.Char.{Char, code}
use Prim.Native.String
use Prim.Native.String.append
use mathlib.Core.Path.{fun_ext}
use spritexai_pay_core.Prelude.{
  ℕ, String, Bool, true, false, ◌&&◌, ◌||◌, eqb, List, [], ◌∷◌, Holds, Option, ◌≡◌, refl, ◌∙◌, ap,
  inl, inr, arith,
}
use spritexai_pay_core.Db.{SettingRow, ok, Env, World, Quiet, any, select}
use spritexai_pay_core.Db.Exec.{exec-Quiet}
use spritexai_pay_core.Settings.{
  Setting, lower_code, at_suffix, is_empty, next_char, like, insert_by_key, by_key, settings_of,
  group_pattern, select_group, get_group,
}

-- A text begins with another, where the case of ASCII letters does not count.
abbrev pub begins_with : String → String → Bool
begins_with String.[] s = true
begins_with (String.◌∷◌ p ps) String.[] = false
begins_with (String.◌∷◌ p ps) (String.◌∷◌ c s) =
    eqb (lower_code (code c)) (lower_code (code p)) && begins_with ps s

any_suffix : (s : String) → at_suffix is_empty s ≡ true
any_suffix String.[] = refl
any_suffix (String.◌∷◌ c s) = any_suffix s

like_anything : (s : String) → like "%" s ≡ true
unfolding like
like_anything s = any_suffix s

differs : (a b : ℕ) → ¬ (a ≡ b) → eqb a b ≡ false
differs a b h = ground arith

one_char :
    (p : Char) (ps s : String)
    → ((t : String) → like (group_pattern ps) t ≡ begins_with (String.◌++◌ ps ".") t)
    → next_char (λ c. eqb (lower_code c) (lower_code (code p))) (like (group_pattern ps)) s
      ≡ begins_with (String.◌∷◌ p (String.◌++◌ ps ".")) s
one_char p ps String.[] rest = refl
one_char p ps (String.◌∷◌ c s) rest = rw (rest s) refl

-- A group without wildcards is a prefix.
like-group_pattern :
    (group s : String)
    → ¬ Holds b'%' group
    → ¬ Holds b'_' group
    → like (group_pattern group) s ≡ begins_with (String.◌++◌ group ".") s
unfolding like
like-group_pattern String.[] String.[] no_percent no_blank = refl
like-group_pattern String.[] (String.◌∷◌ c s) no_percent no_blank = rw any_suffix refl
like-group_pattern (String.◌∷◌ p ps) s no_percent no_blank =
    let not_percent : eqb (code p) b'%' ≡ false = differs (code p) b'%' (λ e. no_percent (inl e)) in
    let not_blank : eqb (code p) b'_' ≡ false = differs (code p) b'_' (λ e. no_blank (inl e)) in
    rw (append.cons, append.cons)
      (rw (not_percent, like)
        (rw (not_blank, like)
          (one_char p ps s
            (λ t. like-group_pattern ps t (λ h. no_percent (inr h)) (λ h. no_blank (inr h))))))

module _ (p : String → Option String → Bool) where
  any-insert_by_key :
      (r : SettingRow) (rs : List SettingRow)
      → any (λ x. p x.key x.value) (insert_by_key r rs)
        ≡ (p r.key r.value || any (λ x. p x.key x.value) rs)
  any-insert_by_key r [] = refl
  any-insert_by_key r (s ∷ ss) = ground (arith, any-insert_by_key r ss)

  any-by_key :
      (rs : List SettingRow)
      → any (λ x. p x.key x.value) (by_key rs) ≡ any (λ x. p x.key x.value) rs
  any-by_key [] = refl
  any-by_key (r ∷ rs) = rw any-insert_by_key (rw (any-by_key rs) refl)

  any-settings_of :
      (rs : List SettingRow)
      → any (λ x. p x.key x.value) (settings_of rs) ≡ any (λ x. p x.key x.value) rs
  any-settings_of [] = refl
  any-settings_of (r ∷ rs) = rw (any-settings_of rs) refl

  any-select :
      (q q' : SettingRow → Bool) (rs : List SettingRow)
      → ((r : SettingRow) → q r ≡ q' r)
      → any (λ x. p x.key x.value) (select q rs) ≡ any (λ x. q' x && p x.key x.value) rs
  any-select q q' [] same = refl
  any-select q q' (r ∷ rs) same = ground (arith, same r, any-select q q' rs same)

-- Where no statement fails and the group has no `%` and no `_`: the read of a group returns, and a
-- test holds of a key and value of the answer exactly when it holds of those of a stored row whose
-- key begins with the group and a dot, where the case of ASCII letters does not count.
pub get_group_lem :
    (env : Env) (group : String) (w : World)
    → Quiet env
    → ¬ Holds b'%' group
    → ¬ Holds b'_' group
    → (answer : List Setting) × ((get_group env group w).0 ≡ ok answer)
      × ((p : String → Option String → Bool)
          → any (λ x. p x.key x.value) answer
            ≡ any (λ r. begins_with (String.◌++◌ group ".") r.key && p r.key r.value) w.db.settings)
unfolding get_group select_group
get_group_lem env group w quiet no_percent no_blank = (
  settings_of (by_key (select (λ r. like (group_pattern group) r.key) w.db.settings)),
  ap (λ r. r.0) (exec-Quiet env quiet (select_group group) w),
  λ p.
      any-settings_of p (by_key (select (λ r. like (group_pattern group) r.key) w.db.settings))
      ∙ any-by_key p (select (λ r. like (group_pattern group) r.key) w.db.settings)
      ∙ any-select p (λ r. like (group_pattern group) r.key)
          (λ r. begins_with (String.◌++◌ group ".") r.key) w.db.settings
          (λ r. like-group_pattern group r.key no_percent no_blank),
)

-- With the group `%`, a dot anywhere in a key is enough.
like_any_group : (s : String) → like (group_pattern "%") s ≡ at_suffix (begins_with ".") s
unfolding like
like_any_group s =
    ap (λ f. at_suffix f s) (fun_ext (λ t. like-group_pattern "" t (λ h. h) (λ h. h)))

-- ===== src/Tests/Group.antt =====
-- A group of the settings at a concrete table.
use Prim.Native.String
use spritexai_pay_core.Prelude.{String, Bool, List, [], ◌∷◌, ◌&&◌, Option, some, ◌≡◌, refl, arith}
use spritexai_pay_core.Db.{World, ok, any}
use spritexai_pay_core.Settings.{Setting, get_group}
use spritexai_pay_core.Settings.Group.{begins_with, get_group_lem}
use spritexai_pay_core.Tests.Outside.{quiet, no_rows, at_start}

abbrev dashboard : World
dashboard = at_start (record no_rows {
  settings =
      record { key = "brand.name"; value = some "Shop"; updated_at = 0 }
      ∷ record { key = "brands"; value = some "2"; updated_at = 0 }
      ∷ record { key = "Brand.color"; value = some "red"; updated_at = 0 }
      ∷ [];
})

get_group_lem_example :
    (answer : List Setting) × ((get_group quiet "brand" dashboard).0 ≡ ok answer)
    × ((p : String → Option String → Bool)
        → any (λ x. p x.key x.value) answer
          ≡ any
              (λ r. begins_with (String.◌++◌ "brand" ".") r.key && p r.key r.value)
              dashboard.db.settings)
get_group_lem_example =
    get_group_lem quiet "brand" dashboard (λ n. refl) (λ h. ground arith) (λ h. ground arith)

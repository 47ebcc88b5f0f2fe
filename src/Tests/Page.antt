-- ===== src/Tests/Page.antt =====
-- The checkout page at concrete receivers.
use spritexai_pay_core.Prelude.{
  ℕ, pos, true, String, List, [], ◌∷◌, ◌≡◌, refl, some, none, Holds, eq_iff, arith,
}
use spritexai_pay_core.Db.{World, GatewayConfig}
use spritexai_pay_core.Tests.Outside.{no_rows, charge_of, at_start}
use spritexai_pay_core.Checkout.{Receiver}
use spritexai_pay_core.Page.{esc, gateway_button, gateway_buttons, options_of}
use spritexai_pay_core.Page.Browser.{outside, tags, unescape, state_after}
use spritexai_pay_core.Page.Escape.{IsMarkup, esc_lem}
use spritexai_pay_core.Page.Buttons.{
  button_tags, options_tags, tags-options_of, gateway_button-unescaped,
}

abbrev bkash : Receiver
bkash = record { gateway = "bkash"; label = none; account_msisdn = some "01712\"><script>" }

-- A gateway whose identifier is a tag.
abbrev hostile : Receiver
hostile = record { gateway = "<img src=\"x\">"; label = none; account_msisdn = none }

esc_lem_example :
    (unescape (esc "a<b & 'c'") ≡ "a<b & 'c'")
    × ((k : ℕ) → IsMarkup k → ¬ Holds k (esc "a<b & 'c'"))
esc_lem_example = esc_lem "a<b & 'c'"

escaped_text : esc "a<b & \"c\"" ≡ "a&lt;b &amp; &quot;c&quot;"
unfolding esc
escaped_text = refl

-- The number breaks out of no attribute.
tags-options_of_example : tags outside (options_of (bkash ∷ [])) ≡ options_tags (bkash ∷ [])
tags-options_of_example = tags-options_of (bkash ∷ []) ((λ h. ground arith), tt)

tags_of_no_receiver : tags outside (options_of []) ≡ (("class", "muted") ∷ []) ∷ [] ∷ []
unfolding options_of gateway_buttons tags unescape
tags_of_no_receiver = refl

hostile_tags : tags outside hostile.gateway ≡ (("src", "x") ∷ []) ∷ []
unfolding tags unescape
hostile_tags = refl

hostile_ends : state_after outside hostile.gateway ≡ outside
unfolding state_after
hostile_ends = refl

gateway_button-unescaped_example :
    tags outside (gateway_button hostile) ≡ button_tags hostile ((("src", "x") ∷ []) ∷ [])
gateway_button-unescaped_example =
    gateway_button-unescaped hostile ((("src", "x") ∷ []) ∷ [])
      (ground (arith, eq_iff hostile.gateway "bkash"))
      (ground (arith, eq_iff hostile.gateway "nagad")) hostile_tags hostile_ends

-- A charge, and one gateway that is switched on.
abbrev shop : World
shop = at_start (record no_rows {
  charges = record (charge_of "chg_1" (pos 500) none) { pay_ref = some "pay_1" } ∷ [];
  gateway_configs =
      record {
        id = "gw_1";
        gateway = "bkash";
        label = none;
        account_msisdn = some "017<12";
        enabled = true;
        created_at = 0;
      }
      ∷ [];
})

abbrev kept_order : List GatewayConfig → List GatewayConfig
kept_order gs = gs

abbrev quoted : String → String
quoted s = s

-- ===== src/Page/Buttons.antt =====
-- src/checkout_page.rs: what a browser reads from the buttons of the gateways.
use spritexai_pay_core.Prelude.{
  String, List, [], ◌∷◌, ◌++◌, ◌==◌, eq_iff, Bool-cases, inl, inr, Holds, ◌≡◌, ◌≢◌, refl, arith,
}
use spritexai_pay_core.Db.{All}
use spritexai_pay_core.Checkout.{Receiver}
use spritexai_pay_core.Page.{
  esc, or_empty, gateway_name, gateway_button, gateway_buttons, options_of,
}
use spritexai_pay_core.Page.Browser.{Attributes, outside, in_value, state_after, tags, unescape}
use spritexai_pay_core.Page.Escape.{esc-lacking, unescape-esc}
use spritexai_pay_core.Page.Reads.{Reads, Reads-append, Reads-outside, Reads-esc}

-- The tags of a button whose name brings these in: itself, and the two spans with their ends.
abbrev pub button_tags : Receiver → List Attributes → List Attributes
button_tags r named =
    (("class", "gw")
      ∷ ("data-gateway", r.gateway)
      ∷ ("data-number", or_empty r.account_msisdn)
      ∷ [])
    ∷ (("class", "gw-name") ∷ [])
    ∷ (named ++ [] ∷ (("class", "gw-num") ∷ []) ∷ [] ∷ [] ∷ [])

gateway_button-Reads :
    (r : Receiver) {named : List Attributes}
    → Reads outside (gateway_name r.gateway) named outside
    → Reads outside (gateway_button r) (button_tags r named) outside
unfolding gateway_button tags state_after unescape
gateway_button-Reads r name = Reads-append opening (
    Reads-append (Reads-esc _ _ r.gateway) (
      Reads-append between (
        Reads-append (Reads-esc _ _ number) (
          Reads-append closing (
            Reads-append name (
              Reads-append label (
                Reads-append (Reads-outside (esc number) (esc-lacking b'<' number (inl refl)))
                  last)))))))
  where
    number : String
    number = or_empty r.account_msisdn

    opening :
        Reads outside "<button class=\"gw\" data-gateway=\"" []
          (in_value (("class", "gw") ∷ []) "data-gateway" "")
    opening = record { read = refl; ends = refl }

    between :
        Reads
          (in_value (("class", "gw") ∷ []) "data-gateway" (esc r.gateway))
          "\" data-number=\""
          []
          (in_value (("class", "gw") ∷ ("data-gateway", r.gateway) ∷ []) "data-number" "")
    between = record { read = refl; ends = rw (unescape-esc r.gateway) refl }

    closing :
        Reads
          (in_value
            (("class", "gw") ∷ ("data-gateway", r.gateway) ∷ [])
            "data-number"
            (esc (or_empty r.account_msisdn)))
          "\">\n                 <span class=\"gw-name\">"
          ((("class", "gw")
              ∷ ("data-gateway", r.gateway)
              ∷ ("data-number", or_empty r.account_msisdn)
              ∷ [])
            ∷ (("class", "gw-name") ∷ [])
            ∷ [])
          outside
    closing = record { read = rw (unescape-esc (or_empty r.account_msisdn)) refl; ends = refl }

    label :
        Reads outside "</span>\n                 <span class=\"gw-num\">"
          ([] ∷ (("class", "gw-num") ∷ []) ∷ [])
          outside
    label = record { read = refl; ends = refl }

    last : Reads outside "</span>\n               </button>" ([] ∷ [] ∷ []) outside
    last = record { read = refl; ends = refl }

Holds-gateway_name : (g : String) → Holds b'<' (gateway_name g) → Holds b'<' g
unfolding gateway_name
Holds-gateway_name g h = elim (Bool-cases (g == "bkash")) [
  | inl b ↦ let brand : Holds b'<' "bKash" = rw b at h in absurd (ground arith)
  | inr other ↦ elim (Bool-cases (g == "nagad")) [
    | inl n ↦ let brand : Holds b'<' "Nagad" = rw (other, n) at h in absurd (ground arith)
    | inr unknown ↦ rw (other, unknown) at h
  ]
]

gateway_name-unknown : (g : String) → g ≢ "bkash" → g ≢ "nagad" → gateway_name g ≡ g
unfolding gateway_name
gateway_name-unknown g b n = ground (arith, eq_iff g "bkash", eq_iff g "nagad")

-- The name of a gateway that is neither bKash nor Nagad is not escaped: the tags that are complete
-- in its identifier are tags of the page, between those of its button.
pub gateway_button-unescaped :
    (r : Receiver) (named : List Attributes)
    → r.gateway ≢ "bkash"
    → r.gateway ≢ "nagad"
    → tags outside r.gateway ≡ named
    → state_after outside r.gateway ≡ outside
    → tags outside (gateway_button r) ≡ button_tags r named
gateway_button-unescaped r named not_bkash not_nagad read ends =
    (gateway_button-Reads r (
      rw (gateway_name-unknown r.gateway not_bkash not_nagad)
        (record { read = read; ends = ends }))).read

-- A gateway whose identifier has no `<`.
abbrev pub IsTagless : Receiver → Type 0
IsTagless r = ¬ Holds b'<' r.gateway

abbrev pub buttons_tags : List Receiver → List Attributes
buttons_tags [] = []
buttons_tags (r ∷ rs) = button_tags r [] ++ buttons_tags rs

-- The tags of the options: those of the buttons, or the one paragraph that says that there is none.
abbrev pub options_tags : List Receiver → List Attributes
options_tags [] = (("class", "muted") ∷ []) ∷ [] ∷ []
options_tags (r ∷ rs) = buttons_tags (r ∷ rs)

gateway_buttons-Reads :
    (rs : List Receiver)
    → All IsTagless rs
    → Reads outside (gateway_buttons rs) (buttons_tags rs) outside
unfolding gateway_buttons tags state_after
gateway_buttons-Reads [] clean = record { read = refl; ends = refl }
gateway_buttons-Reads (r ∷ rs) clean =
    Reads-append
      (gateway_button-Reads r
        (Reads-outside (gateway_name r.gateway) (λ h. clean.0 (Holds-gateway_name r.gateway h))))
      (gateway_buttons-Reads rs clean.1)

no_tags : (r : Receiver) (rs : List Receiver) → tags outside "" ≢ buttons_tags (r ∷ rs)
unfolding tags
no_tags r rs = cc

-- Where no gateway's identifier has a `<`: the tags that a browser reads from the options of the
-- page are those of one button for each receiver, in their order, whose attributes are exactly the
-- gateway and the number of the receiver (or none), whatever characters these have; without
-- receivers they are the one paragraph that says so.
pub tags-options_of :
    (rs : List Receiver) → All IsTagless rs → tags outside (options_of rs) ≡ options_tags rs
unfolding options_of gateway_buttons tags unescape
tags-options_of [] clean = refl
tags-options_of (r ∷ rs) clean = elim (Bool-cases (gateway_buttons (r ∷ rs) == "")) [
  | inl empty ↦
      let all : tags outside (gateway_buttons (r ∷ rs)) ≡ buttons_tags (r ∷ rs) =
        (gateway_buttons-Reads (r ∷ rs) clean).read in
      absurd (no_tags r rs (rw ((eq_iff (gateway_buttons (r ∷ rs)) "").0 empty) at all))
  | inr some_button ↦ rw some_button (gateway_buttons-Reads (r ∷ rs) clean).read
]

-- ===== src/Page.antt =====
-- src/checkout_page.rs: the page that a customer pays on, as the text that the server sends. The
-- fixed text is in Chrome and Body.
mod Chrome
mod Body
pub mod Escape
pub mod Browser
pub mod Reads
pub mod Buttons
use Prim.Native.Char.{code}
use Prim.Native.String
use Prim.Native.String.{[], ◌∷◌, ◌++◌}
use spritexai_pay_core.Prelude.{ℕ, String, eqb, ◌==◌, Option, none, some, if◌then◌else◌}
use spritexai_pay_core.Prelude
use spritexai_pay_core.Crates.{Float64}
use spritexai_pay_core.Checkout.{Receiver, PublicCharge}
use Chrome.{page_head, page_style, page_foot}
use Body.{
  card_open, symbol_close, pick_open, instructions_open, instructions_rest, reference_close,
  script_rest,
}

-- `s.replace(c, with)` for a character `c`.
unfoldable pub replace : ℕ → String → String → String
replace k with [] = []
replace k with (c ∷ s) =
    let rest = replace k with s in if eqb (code c) k then with ++ rest else c ∷ rest

unfoldable pub esc : String → String
unfolding replace
esc s =
    replace b'\'' "&#39;"
      (replace b'"' "&quot;" (replace b'>' "&gt;" (replace b'<' "&lt;" (replace b'&' "&amp;" s))))

-- The lines of a raw string, as one text.
unfoldable pub concat : Prelude.List String → String
concat Prelude.[] = []
concat (Prelude.◌∷◌ l ls) = l ++ concat ls

-- `unwrap_or_default`
abbrev pub or_empty : Option String → String
or_empty none = []
or_empty (some s) = s

unfoldable pub gateway_name : String → String
gateway_name g = if g == "bkash" then "bKash" else if g == "nagad" then "Nagad" else g

unfoldable pub gateway_button : Receiver → String
gateway_button r =
    let g = esc r.gateway in
    let num = esc (or_empty r.account_msisdn) in
    "<button class=\"gw\" data-gateway=\""
    ++ (g
        ++ ("\" data-number=\""
            ++ (num
                ++ ("\">\n                 <span class=\"gw-name\">"
                    ++ (gateway_name r.gateway
                        ++ ("</span>\n                 <span class=\"gw-num\">"
                            ++ (num ++ "</span>\n               </button>")))))))

-- The loop over the receivers.
unfoldable pub gateway_buttons : Prelude.List Receiver → String
gateway_buttons Prelude.[] = []
gateway_buttons (Prelude.◌∷◌ r rs) = gateway_button r ++ gateway_buttons rs

unfoldable pub options_of : Prelude.List Receiver → String
options_of rs =
    let options = gateway_buttons rs in
    if options == ""
    then "<p class=\"muted\">The merchant has not configured a receiving number yet.</p>"
    else options

unfoldable pub wrap : String → String → String
wrap title inner =
    concat page_head ++ (esc title ++ (concat page_style ++ (inner ++ concat page_foot)))

unfoldable pub not_found : String
not_found = wrap "Payment not found" (
    "<div class=\"card\"><h1>Payment link invalid</h1>\n"
    ++ ("        <p class=\"muted\">This checkout link is unknown or has expired. "
        ++ "Please return to the store and try again.</p></div>"))

-- `debug` is the standard library's `{:?}` of a text.
module _ (f : Float64) (debug : String → String) where
  unfoldable pub render : PublicCharge → String
  render view =
      let amount = f.two_decimals (f.over_hundred (f.of_i64 view.amount_minor)) in
      let symbol = if view.currency == "BDT" then "৳" else "" in
      wrap "Checkout" (
        concat card_open
        ++ (symbol
            ++ (concat symbol_close
                ++ (amount
                    ++ (concat pick_open
                        ++ (options_of view.receivers
                            ++ (concat instructions_open
                                ++ (symbol
                                    ++ (amount
                                        ++ (concat instructions_rest
                                            ++ (debug view.pay_ref
                                                ++ (concat reference_close
                                                    ++ (debug (or_empty view.return_url)
                                                        ++ concat script_rest)))))))))))))

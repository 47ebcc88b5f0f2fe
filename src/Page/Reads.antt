-- ===== src/Page/Reads.antt =====
-- src/checkout_page.rs: the steps of a reader of tags over a text that is put together.
use Prim.Native.Char.{code}
use Prim.Native.String.{[], ◌∷◌, ◌++◌}
use Prim.Native.String.append
use text.Mathlib.TextLemmas.{append-nil, append_assoc}
use mathlib.Core.List as ListLaws
use spritexai_pay_core.Prelude.{
  ℕ, String, false, eqb, Holds, ◌≡◌, refl, ◌∙◌, sym, ap, inl, inr, arith,
}
use spritexai_pay_core.Prelude
use spritexai_pay_core.Page.{esc}
use spritexai_pay_core.Page.Browser.{
  Attributes, State, outside, in_value, advance, ended, state_after, tags,
}
use spritexai_pay_core.Page.Escape.{esc-lacking}

-- A reader that stands at a state reads these tags from a text, and then stands at another state.
pub record Reads (st : State) (s : String) (out : Prelude.List Attributes) (st' : State)
    : Type 0 where
  pub read : tags st s ≡ out
  pub ends : state_after st s ≡ st'

tags-append :
    (st : State) (a b : String)
    → tags st (a ++ b) ≡ Prelude.◌++◌ (tags st a) (tags (state_after st a) b)
unfolding tags state_after
tags-append st [] b = rw append.nil refl
tags-append st (c ∷ a) b =
    rw (append.cons, tags)
      (rw (tags-append (advance st c) a b)
        (sym (ListLaws.append_assoc (ended st c) (tags (advance st c) a) _)))

state_after-append :
    (st : State) (a b : String) → state_after st (a ++ b) ≡ state_after (state_after st a) b
unfolding state_after
state_after-append st [] b = rw append.nil refl
state_after-append st (c ∷ a) b =
    rw (append.cons, state_after) (state_after-append (advance st c) a b)

pub Reads-append :
    {a b : String} {st st1 st2 : State} {o p : Prelude.List Attributes}
    → Reads st a o st1
    → Reads st1 b p st2
    → Reads st (a ++ b) (Prelude.◌++◌ o p) st2
Reads-append {a} {b} {st} x y = record {
  read = rw (tags-append st a b, x.read, x.ends, y.read) refl;
  ends = rw (state_after-append st a b, x.ends) y.ends;
}

differs : (a b : ℕ) → ¬ (a ≡ b) → eqb a b ≡ false
differs a b h = ground arith

-- A text with no `<` has no tag.
pub Reads-outside : (s : String) → ¬ Holds b'<' s → Reads outside s Prelude.[] outside
unfolding tags state_after
Reads-outside [] no_tag = record { read = refl; ends = refl }
Reads-outside (c ∷ s) no_tag =
    let plain : eqb (code c) b'<' ≡ false = differs (code c) b'<' (λ e. no_tag (inl e)) in
    let rest : Reads outside s Prelude.[] outside = Reads-outside s (λ h. no_tag (inr h)) in
    record { read = rw (plain, tags) rest.read; ends = rw (plain, state_after) rest.ends }

-- A value goes on to the next quotation mark.
Reads-in_value :
    (done : Attributes) (name value s : String)
    → ¬ Holds b'"' s
    → Reads (in_value done name value) s Prelude.[] (in_value done name (value ++ s))
unfolding tags state_after
Reads-in_value done name value [] unquoted = record {
  read = refl;
  ends = rw (append-nil value) refl;
}
Reads-in_value done name value (c ∷ s) unquoted =
    let plain : eqb (code c) b'"' ≡ false = differs (code c) b'"' (λ e. unquoted (inl e)) in
    let rest : Reads (in_value done name (value ++ (c ∷ []))) s Prelude.[]
        (in_value done name ((value ++ (c ∷ [])) ++ s)) =
      Reads-in_value done name (value ++ (c ∷ [])) s (λ h. unquoted (inr h)) in
    let moved : (value ++ (c ∷ [])) ++ s ≡ value ++ (c ∷ s) =
      append_assoc value (c ∷ []) s ∙ rw append.cons (rw append.nil refl) in
    record {
      read = rw (plain, tags) rest.read;
      ends = rw (plain, state_after) (rest.ends ∙ ap (in_value done name) moved);
    }

-- What `esc` writes into a value stays in that value.
pub Reads-esc :
    (done : Attributes) (name s : String)
    → Reads (in_value done name []) (esc s) Prelude.[] (in_value done name (esc s))
Reads-esc done name s =
    let value : Reads (in_value done name []) (esc s) Prelude.[]
        (in_value done name ([] ++ esc s)) =
      Reads-in_value done name [] (esc s) (esc-lacking b'"' s (inr (inr (inl refl)))) in
    record { read = value.read; ends = value.ends ∙ ap (in_value done name) (append.nil (esc s)) }

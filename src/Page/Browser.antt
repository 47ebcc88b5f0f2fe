-- ===== src/Page/Browser.antt =====
-- How a browser reads the page of src/checkout_page.rs: character references, and the start tags with
-- their attributes. It is the standard that the page is measured by, and models no code of the source.
use Prim.Native.Char.{Char, code}
use Prim.Native.String.{[], ◌∷◌, ◌++◌}
use spritexai_pay_core.Prelude.{
  ℕ, zero, suc, String, Bool, true, false, eqb, ◌||◌, Option, none, some, if◌then◌else◌,
  strip_prefix,
}
use spritexai_pay_core.Prelude

abbrev starts : String → String → Bool
starts p s = elim (strip_prefix p s) [ none ↦ false | some r ↦ true ]

-- The character that a reference at the head of a text stands for, and how many characters it has
-- behind its `&`.
unfoldable pub reference : String → Option (Char × ℕ)
unfolding strip_prefix
reference s =
    if starts "&amp;" s
    then some ("&", 4)
    else if starts "&lt;" s
    then some ("<", 3)
    else if starts "&gt;" s
    then some (">", 3)
    else if starts "&quot;" s
    then some ("\"", 5)
    else if starts "&#39;" s
    then some ("'", 4)
    else none

-- A text with its references read; the number is of the characters that still belong to the
-- reference that was read last.
unfoldable pub unescape_from : ℕ → String → String
unfolding reference
unescape_from n [] = []
unescape_from (suc n) (c ∷ s) = unescape_from n s
unescape_from zero (c ∷ s) = elim (reference (c ∷ s)) [
  | none ↦ c ∷ unescape_from zero s
  | some (d, n) ↦ d ∷ unescape_from n s
]

unfoldable pub unescape : String → String
unfolding unescape_from
unescape s = unescape_from 0 s

-- The attributes of a tag: their names with their values.
abbrev pub Attributes : Type 0
Attributes = Prelude.List (String × String)

-- Where a reader of tags stands: in a text, in the name of a tag, or behind it with the attributes
-- that it has read, and then the name and the value that it is reading.
pub data State : Type 0 where
  outside tag_name : State
  before_name : Attributes → State
  in_name : Attributes → String → State
  after_name : Attributes → String → State
  in_value : Attributes → String → String → State

abbrev push : String → Char → String
push s c = s ++ (c ∷ [])

abbrev is_space : Char → Bool
is_space c = eqb (code c) b' ' || eqb (code c) b'\n'

-- One character.
unfoldable pub advance : State → Char → State
advance outside c = if eqb (code c) b'<' then tag_name else outside
advance tag_name c =
    if is_space c then before_name Prelude.[] else if eqb (code c) b'>' then outside else tag_name
advance (before_name done) c =
    if is_space c
    then before_name done
    else if eqb (code c) b'>'
    then outside
    else in_name done (c ∷ [])
advance (in_name done name) c =
    if eqb (code c) b'=' then after_name done name else in_name done (push name c)
advance (after_name done name) c =
    if eqb (code c) b'"' then in_value done name [] else after_name done name
advance (in_value done name value) c =
    if eqb (code c) b'"'
    then before_name (Prelude.◌++◌ done (Prelude.◌∷◌ (name, unescape value) Prelude.[]))
    else in_value done name (push value c)

-- The tag that one character ends.
unfoldable pub ended : State → Char → Prelude.List Attributes
ended tag_name c = if eqb (code c) b'>' then Prelude.◌∷◌ Prelude.[] Prelude.[] else Prelude.[]
ended (before_name done) c = if eqb (code c) b'>' then Prelude.◌∷◌ done Prelude.[] else Prelude.[]
ended _ c = Prelude.[]

-- Where a reader stands behind a text.
unfoldable pub state_after : State → String → State
unfolding advance
state_after st [] = st
state_after st (c ∷ s) = state_after (advance st c) s

-- The tags that end in a text, in their order, each by its attributes.
unfoldable pub tags : State → String → Prelude.List Attributes
unfolding advance ended
tags st [] = Prelude.[]
tags st (c ∷ s) = Prelude.◌++◌ (ended st c) (tags (advance st c) s)

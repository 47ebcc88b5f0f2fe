-- ===== src/Stable/Instances.antt =====
-- The money invariant as a predicate that every operation keeps.
use spritexai_pay_core.Prelude.{refl, [], ◌∷◌, arith}
use spritexai_pay_core.Db.Lists.{All-append, All-update}
use spritexai_pay_core.Charge.Sound.{Sound, HasAmount, Sound-of}
use spritexai_pay_core.Charge.Settle.{mark_paid-Triple}
use spritexai_pay_core.Stable.{Stable, Settles}

pub Sound-Stable : Stable Sound
Sound-Stable = record {
  frame = λ m s. Sound-of (rw (← m.charges) s.amounts) m.transactions m.entries s;
  inserted = λ row db n s.
      Sound-of
        (All-append HasAmount db.charges (row ∷ []) s.amounts
          ((let p = n.positive in ground arith, n.range), tt))
        refl refl s;
  noted = λ p g db same s.
      Sound-of (All-update HasAmount p g db.charges (λ r h. rw ((same r).amount) h) s.amounts) refl
        refl s;
}

pub Sound-Settles : Settles Sound
Sound-Settles env crates id = mark_paid-Triple env crates id

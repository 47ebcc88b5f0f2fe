-- ===== src/Settlement.antt =====
-- What the engine of src/ promises about its charges, as an abstract machine: bills are opened
-- unsettled, and settled. The children relate the server to it.
pub mod Bills
pub mod Abstract
pub mod Paid
pub mod Reach
use spritexai_pay_core.Prelude.{
  ℤ, pos, ◌≤ℤ◌, String, Bool, true, false, ◌≡◌, List, [], ◌∷◌, ◌++◌, ◌==◌, map, if◌then◌else◌,
}
use spritexai_pay_core.Db.{ChargeRow, ChargeStatus, Tables, any, update}

pub record Bill : Type 0 where
  pub id : String
  pub amount_minor : ℤ
  pub currency : String
  pub settled : Bool

abbrev pub is_paid : ChargeStatus → Bool
is_paid ChargeStatus.paid = true
is_paid _ = false

abbrev pub bill_of : ChargeRow → Bill
bill_of r = record {
  id = r.id;
  amount_minor = r.amount_minor;
  currency = r.currency;
  settled = is_paid r.status;
}

-- The abstract view of the table of charges.
abbrev pub bills : List ChargeRow → List Bill
bills rs = map bill_of rs

abbrev pub settle : Bill → Bill
settle b = record b { settled = true }

-- One step of the abstract machine.
pub data Step : List Bill → List Bill → Type 0 where
  opens :
      (b : Bill) (bs : List Bill)
      → b.settled ≡ false
      → pos 1 ≤ℤ b.amount_minor
      → any (λ c. c.id == b.id) bs ≡ false
      → Step bs (bs ++ b ∷ [])
  settles : (id : String) (bs : List Bill) → Step bs (update (λ b. b.id == id) settle bs)

pub data Run : List Bill → List Bill → Type 0 where
  stay : {bs : List Bill} → Run bs bs
  move : {al bs cs : List Bill} → Run al bs → Step bs cs → Run al cs

-- The ids of the charges that are paid.
abbrev pub paid_ids : List ChargeRow → List String
paid_ids [] = []
paid_ids (r ∷ rs) = if is_paid r.status then r.id ∷ paid_ids rs else paid_ids rs

-- ===== src/Sms/Sound.antt =====
-- src/sms.rs: `ingest`, and the money invariant.
use spritexai_pay_core.Prelude.{String}
use spritexai_pay_core.Crates.{Crates, Float64}
use spritexai_pay_core.Db.{Env, World}
use spritexai_pay_core.Db.Triple.{Triple-kept}
use spritexai_pay_core.Ai.{AiOutside}
use spritexai_pay_core.Charge.Sound.{Sound}
use spritexai_pay_core.Sms.{ingest}
use spritexai_pay_core.Stable.Ingest.{ingest-Keeps}
use spritexai_pay_core.Stable.Instances.{Sound-Stable, Sound-Settles}

-- Ingesting any SMS, whatever the parsers and providers answer and whichever statement fails,
-- keeps the money invariant: charges have positive amounts of 64 bits, every ledger entry has its
-- transaction, every transaction sums to zero, and the two settlement accounts mirror each other.
pub ingest-Sound :
    (env : Env) (crates : Crates) (f : Float64) (o : AiOutside f.F) (gw body : String) (w : World)
    → Sound w.db
    → Sound (ingest env crates f o gw body w).1.db
ingest-Sound env crates f o gw body w =
    Triple-kept w (ingest-Keeps Sound-Stable Sound-Settles env crates f o gw body)

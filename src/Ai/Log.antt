-- ===== src/Ai/Log.antt =====
-- src/ai.rs: the tables that the fallback chain writes.
use spritexai_pay_core.Prelude.{
  ◌≡◌, refl, ◌⊎◌, inl, inr, String, Option, none, some, List, [], ◌∷◌, arith,
}
use spritexai_pay_core.Crates.{Float64}
use spritexai_pay_core.Db.{Tables, Env, World, exec}
use spritexai_pay_core.Db.Exec.{exec_cases}
use spritexai_pay_core.Gateway.{ParsedTxn}
use spritexai_pay_core.Ai.{
  AiOutside, Provider, Panicking, panics, returns, log_attempt, ignore, try_providers, extract,
  parse_reply, extraction_prompt, providers_from_env,
}

-- Two states of the tables that differ in the parse log only.
abbrev pub SameButLog : Tables → Tables → Type 0
SameButLog a b = a ≡ record b { ai_parse_log = a.ai_parse_log }

pub reply_cases :
    (r : Panicking (Option ParsedTxn))
    → (r ≡ panics) ⊎ (((x : ParsedTxn) × (r ≡ returns (some x))) ⊎ (r ≡ returns none))
reply_cases panics = inl refl
reply_cases (returns (some x)) = inr (inl (x, refl))
reply_cases (returns none) = inr (inr refl)

module _ (env : Env) where
  logged :
      (gateway raw_sha256 raw_body name : String) (parsed : Option ParsedTxn) (w : World)
      → SameButLog
          (ignore (exec env (log_attempt gateway raw_sha256 raw_body name parsed)) w).db
          w.db
  unfolding log_attempt
  logged gateway raw_sha256 raw_body name parsed w =
      ground (arith, exec_cases env (log_attempt gateway raw_sha256 raw_body name parsed) w)

  module _ (f : Float64) (o : AiOutside f.F) (gateway raw_body raw_sha256 : String) where
    try_providers-SameButLog :
        (ps : List Provider) (w : World)
        → SameButLog (try_providers env f o gateway raw_body raw_sha256 ps w).1.db w.db
    unfolding try_providers
    try_providers-SameButLog [] w = refl
    try_providers-SameButLog (p ∷ ps) w =
        elim (reply_cases (parse_reply f o gateway (o.chat p extraction_prompt raw_body))) [
          | inl e ↦ ground arith
          | inr (inl (x, e)) ↦ ground (arith, logged gateway raw_sha256 raw_body p.name (some x) w)
          | inr (inr e) ↦ ground (
            arith,
            logged gateway raw_sha256 raw_body p.name none w,
            try_providers-SameButLog ps
                (ignore (exec env (log_attempt gateway raw_sha256 raw_body p.name none)) w),
          )
        ]

    -- Whatever the providers answer, the fallback extraction leaves every table but its log as it
    -- was.
    pub extract-SameButLog :
        (w : World) → SameButLog (extract env f o gateway raw_body raw_sha256 w).1.db w.db
    unfolding extract
    extract-SameButLog = try_providers-SameButLog (providers_from_env o.var)

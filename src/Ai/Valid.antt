-- ===== src/Ai/Valid.antt =====
-- src/ai.rs: what an extraction that the fallback chain returns holds, and what the chain logs.
use spritexai_pay_core.Prelude.{
  ◌≡◌, ◌≢◌, refl, ◌⊎◌, inl, inr, eq_iff, String, true, false, Bool-cases, Option-cases, Option,
  none, some, List, [], ◌∷◌, ◌==◌,
}
use spritexai_pay_core.Crates.{Float64}
use spritexai_pay_core.Db.{Env, World, exec}
use spritexai_pay_core.Gateway.{ParsedTxn}
use spritexai_pay_core.Ai.Log.{reply_cases}
use spritexai_pay_core.Ai.{
  AiOutside, Extraction, Provider, Panicking, panics, returns, log_attempt, ignore, try_providers,
  extract, parse_reply, parse_extraction, read_extraction, json_span, nonempty, extraction_prompt,
  providers_from_env,
}

span_cases :
    (r : Panicking (Option String))
    → (r ≡ panics) ⊎ ((r ≡ returns none) ⊎ ((s : String) × (r ≡ returns (some s))))
span_cases panics = inl refl
span_cases (returns none) = inr (inl refl)
span_cases (returns (some s)) = inr (inr (s, refl))

module _ (f : Float64) (o : AiOutside f.F) where
  -- A transaction that is read from an extraction: its id is not empty, and its amount is finite
  -- and positive, and is rounded to minor units.
  abbrev pub ReadFrom : String → Extraction f.F → ParsedTxn → Type 0
  ReadFrom gateway ex t =
      (t.gateway ≡ gateway)
      × ((raw : String) × (ex.txn_id ≡ some raw) × (t.txn_id ≡ o.trim raw) × (t.txn_id ≢ ""))
      × ((amount : f.F) × (ex.amount_bdt ≡ some amount)
          × (f.is_finite amount ≡ true)
          × (f.is_nonpositive amount ≡ false)
          × (t.amount_minor ≡ f.round_i64 (f.times_hundred amount)))

  read_extraction-ReadFrom :
      (gateway : String) (ex : Extraction f.F) (t : ParsedTxn)
      → read_extraction f o gateway ex ≡ some t
      → ReadFrom gateway ex t
  unfolding read_extraction
  read_extraction-ReadFrom gateway ex t h = elim (Option-cases ex.txn_id) [
    | inl n ↦ absurd (cc (rw n at h))
    | inr (raw, e) ↦ elim (Bool-cases (o.trim raw == "")) [
      | inl empty ↦ absurd (cc (rw (e, empty) at h))
      | inr full ↦ elim (Option-cases ex.amount_bdt) [
        | inl n ↦ absurd (cc (rw (e, full, n) at h))
        | inr (amount, a) ↦ elim (Bool-cases (f.is_finite amount)) [
          | inr wild ↦ absurd (cc (rw (e, full, a, wild) at h))
          | inl finite ↦ elim (Bool-cases (f.is_nonpositive amount)) [
            | inl low ↦ absurd (cc (rw (e, full, a, finite, low) at h))
            | inr high ↦
                let out : ParsedTxn = record {
                  gateway = gateway;
                  txn_id = o.trim raw;
                  amount_minor = f.round_i64 (f.times_hundred amount);
                  sender_msisdn = nonempty ex.sender_msisdn;
                } in
                let made : out ≡ t = cc (rw (e, full, a, finite, high) at h) in
                rw (← made) (
                  refl,
                  (raw, e, refl, λ x. absurd (cc (full, (eq_iff _ _).1 x))),
                  (amount, a, finite, high, refl),
                )
          ]
        ]
      ]
    ]
  ]

  -- A transaction that is read from the answer of a provider to the body of the SMS.
  abbrev pub Answered : String → String → ParsedTxn → Provider → Type 0
  Answered gateway raw_body t p =
      (content : String) × (o.chat p extraction_prompt raw_body ≡ some content)
      × (span : String) × (json_span content ≡ returns (some span))
      × (ex : Extraction f.F) × (o.extraction span ≡ some ex)
      × ReadFrom gateway ex t

  parse_extraction-ReadFrom :
      (gateway content : String) (t : ParsedTxn)
      → parse_extraction f o gateway content ≡ returns (some t)
      → (span : String) × (json_span content ≡ returns (some span))
        × (ex : Extraction f.F) × (o.extraction span ≡ some ex)
        × ReadFrom gateway ex t
  unfolding parse_extraction
  parse_extraction-ReadFrom gateway content t h = elim (span_cases (json_span content)) [
    | inl e ↦ absurd (cc (rw (e, parse_extraction) at h))
    | inr (inl e) ↦ absurd (cc (rw (e, parse_extraction) at h))
    | inr (inr (span, e)) ↦ elim (Option-cases (o.extraction span)) [
      | inl n ↦ absurd (cc (rw (e, parse_extraction, n) at h))
      | inr (ex, x) ↦ (
        span,
        e,
        ex,
        x,
        read_extraction-ReadFrom gateway ex t (cc (rw (e, parse_extraction, x) at h)),
      )
    ]
  ]

  parse_reply-Answered :
      (gateway raw_body : String) (p : Provider) (t : ParsedTxn)
      → parse_reply f o gateway (o.chat p extraction_prompt raw_body) ≡ returns (some t)
      → Answered gateway raw_body t p
  unfolding parse_reply
  parse_reply-Answered gateway raw_body p t h =
      elim (Option-cases (o.chat p extraction_prompt raw_body)) [
        | inl n ↦ absurd (cc (rw (n, parse_reply) at h))
        | inr (content, e) ↦
            let (span, s, ex, x, read) =
              parse_extraction-ReadFrom gateway content t (rw (e, parse_reply) at h) in
            (content, e, span, s, ex, x, read)
      ]

-- Some provider of a list.
abbrev pub Among : (Provider → Type 0) → List Provider → Type 0
Among P [] = ⊥
Among P (p ∷ ps) = P p ⊎ Among P ps

module _ (env : Env) (f : Float64) (o : AiOutside f.F) (gateway raw_body raw_sha256 : String)
    (t : ParsedTxn) where
  try_providers-Valid :
      (ps : List Provider) (w : World)
      → (try_providers env f o gateway raw_body raw_sha256 ps w).0 ≡ returns (some t)
      → Among (Answered f o gateway raw_body t) ps
  unfolding try_providers
  try_providers-Valid [] w h = absurd (cc h)
  try_providers-Valid (p ∷ ps) w h =
      elim (reply_cases (parse_reply f o gateway (o.chat p extraction_prompt raw_body))) [
        | inl e ↦ absurd (cc (rw (e, try_providers) at h))
        | inr (inl (x, e)) ↦
            let same : x ≡ t = cc (rw (e, try_providers) at h) in
            inl (parse_reply-Answered f o gateway raw_body p t (rw (← same) e))
        | inr (inr e) ↦ inr (
            try_providers-Valid ps
              (ignore (exec env (log_attempt gateway raw_sha256 raw_body p.name none)) w)
              (rw (e, try_providers) at h))
      ]

  -- A transaction that the fallback returns was read from the answer of a provider that the
  -- environment configures, for the gateway that was asked for: its id is the trimmed id of the
  -- answer and is not empty, and its amount is the amount of the answer, which is finite and
  -- positive, times a hundred and rounded.
  pub extract-Valid :
      (w : World)
      → (extract env f o gateway raw_body raw_sha256 w).0 ≡ returns (some t)
      → Among (Answered f o gateway raw_body t) (providers_from_env o.var)
  unfolding extract
  extract-Valid w h = try_providers-Valid (providers_from_env o.var) w h

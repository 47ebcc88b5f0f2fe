-- ===== src/Domain/Whitelist.antt =====
-- src/domain.rs: `host_of` and `is_allowed`.
use spritexai_pay_core.Prelude.{
  ℕ, ◌≡◌, refl, ◌⊎◌, inl, inr, String, Bool, true, eqb, Option, none, some, ◌==◌, arith, Bool-cases,
  Option-cases, if◌then◌else◌,
}
use spritexai_pay_core.Db.{Tables, Result, ok, DbError, Env, World, M, pure, exec, any, count}
use spritexai_pay_core.Db.Exec.{exec_cases, counted, bind_ok, bind_err}
use spritexai_pay_core.Domain.Url.{Reads, host_of-Reads}
use spritexai_pay_core.Domain.{host_of, count_domains, find_domain, check_host, is_allowed}

-- A URL that the whitelist permits: there is none, no domain is listed at all, or the host that is read from it is listed.
abbrev pub Permitted : Option String → Tables → Type 0
Permitted none db = Unit {0}
Permitted (some url) db =
    (count (λ r. true) db.allowed_domains ≡ 0)
    ⊎ ((host : String) × Reads url host × (any (λ r. r.domain == host) db.allowed_domains ≡ true))

-- The verdict that a result may hold.
abbrev pub Verdict : Option String → Tables → Result DbError Bool × World → Type 0
Verdict url db (ok true, w) = Permitted url db × (w.db ≡ db)
Verdict url db (_, w) = w.db ≡ db

module _ (env : Env) where
  check_host-Verdict :
      (url : String) (w : World) → Verdict (some url) w.db (check_host env (host_of url) w)
  unfolding check_host find_domain
  check_host-Verdict url w = elim (Option-cases (host_of url)) [
    | inl n ↦ rw n refl
    | inr (host, e) ↦ elim (exec_cases env (find_domain host) w) [
      | inl x ↦ rw (e, x) refl
      | inr x ↦ elim (Bool-cases (any (λ r. r.domain == host) w.db.allowed_domains)) [
        | inl here ↦ rw (e, x, here) (inr (host, host_of-Reads url host e, here), refl)
        | inr gone ↦ rw (e, x, gone) refl
      ]
    ]
  ]

  -- The whitelist says yes only where there is no URL, no domain is listed, or a domain is listed
  -- that stands in the URL behind the first `://`, or at the start where there is none, up to the
  -- first slash or colon or the end of the URL; and it changes no table.
  pub is_allowed-Verdict :
      (url : Option String) (w : World) → Verdict url w.db (is_allowed env url w)
  unfolding is_allowed count_domains
  is_allowed-Verdict none w = (tt, refl)
  is_allowed-Verdict (some url) w =
      let rest : ℕ → M DbError Bool =
        λ n. if eqb n 0 then pure true else check_host env (host_of url) in
      elim (exec_cases env count_domains w) [
        | inl x ↦ rw (bind_err rest (exec env count_domains) w x) refl
        | inr x ↦
            rw (bind_ok rest (exec env count_domains) w x)
              (elim (Bool-cases (eqb (count (λ r. true) w.db.allowed_domains) 0)) [
                | inl empty ↦ rw empty (inl (ground arith), refl)
                | inr listed ↦ rw listed (check_host-Verdict url (counted w))
              ])
      ]

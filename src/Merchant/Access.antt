-- ===== src/Merchant/Access.antt =====
-- src/merchant.rs: `verify_api_key` and `revoke_api_key`.
use spritexai_pay_core.Prelude.{
  ◌≡◌, ◌≢◌, refl, inl, inr, String, Bool, true, false, ◌&&◌, Option, none, some, List, [], ◌∷◌,
  ◌==◌, eq_refl, arith, Bool-cases,
}
use spritexai_pay_core.Crates.{Crates}
use spritexai_pay_core.Crypto.{sign}
use spritexai_pay_core.Db.{ApiKey, KeyStatus, ok, Env, World, ◌>>=◌, any, first, update}
use spritexai_pay_core.Db.Exec.{exec_cases}
use spritexai_pay_core.Merchant.{
  KeyContext, key_domain, parse_scopes, has_active_digest, select_active_key, stamp_key,
  set_revoked, revoke_api_key, admit, verify_api_key,
}

-- A row that grants a scope to the bearer of a raw key.
abbrev pub grants : Crates → String → String → KeyContext → ApiKey → Bool
grants c raw scope ctx k =
    has_active_digest (sign c key_domain raw) k
    && k.id == ctx.id
    && any (λ s. s == scope) (parse_scopes c k.scopes)

module _ (c : Crates) (raw scope : String) where
  granted_row :
      (k : ApiKey) (ks : List ApiKey) (ctx : KeyContext)
      → first (has_active_digest (sign c key_domain raw)) ks ≡ some k
      → k.id ≡ ctx.id
      → any (λ s. s == scope) (parse_scopes c k.scopes) ≡ true
      → any (grants c raw scope ctx) ks ≡ true
  granted_row k [] ctx f e s = cc
  granted_row k (x ∷ xs) ctx f e s =
      elim (Bool-cases (has_active_digest (sign c key_domain raw) x)) [
        | inl hit ↦
            let same : x ≡ k = ground arith in
            rw hit (rw same (rw e (rw (eq_refl ctx.id) (rw s refl))))
        | inr miss ↦ rw miss (granted_row k xs ctx (rw miss at f) e s)
      ]

  module _ (env : Env) where
    admit_ok :
        (row : Option ApiKey) (ctx : KeyContext) (w : World)
        → (admit env c scope row w).0 ≡ ok (some ctx)
        → (k : ApiKey) × (row ≡ some k)
          × (k.id ≡ ctx.id)
          × (any (λ s. s == scope) (parse_scopes c k.scopes) ≡ true)
    unfolding admit stamp_key
    admit_ok none ctx w h = absurd (cc h)
    admit_ok (some k) ctx w h =
        elim (Bool-cases (any (λ s. s == scope) (parse_scopes c k.scopes))) [
          | inr lacks ↦ absurd (cc (rw lacks at h))
          | inl has ↦ elim (exec_cases env (stamp_key k.id) w) [
            | inl e ↦ absurd (cc (rw (has, e, ◌>>=◌) at h))
            | inr e ↦
                let done : ok (some (record { id = k.id; scopes = parse_scopes c k.scopes }))
                    ≡ ok (some ctx) =
                  rw (has, e, ◌>>=◌) at h in
                (k, refl, ground arith, has)
          ]
        ]

    -- A key context is handed out only when the table holds an active key of that id whose digest
    -- is that of the raw key and whose scopes hold the required one.
    pub verify_api_key-granted :
        (ctx : KeyContext) (w : World)
        → (verify_api_key env c raw scope w).0 ≡ ok (some ctx)
        → any (grants c raw scope ctx) w.db.api_keys ≡ true
    unfolding verify_api_key select_active_key
    verify_api_key-granted ctx w h =
        elim (exec_cases env (select_active_key (sign c key_domain raw)) w) [
          | inl e ↦ absurd (cc (rw (e, ◌>>=◌) at h))
          | inr e ↦
              let (k, f, i, s) = admit_ok _ ctx _ (rw (e, ◌>>=◌) at h) in
              granted_row k w.db.api_keys ctx f i s
        ]

-- A key that is revoked is active nowhere in the table.
none_active :
    (id : String) (p : ApiKey → Bool) (ks : List ApiKey) (x : String)
    → any
        (λ k. has_active_digest id k && k.id == x && p k)
        (update (λ k. k.id == x) (λ k. record k { status = KeyStatus.revoked }) ks)
      ≡ false
none_active id p [] x = refl
none_active id p (k ∷ ks) x = elim (Bool-cases (k.id == x)) [
  | inl here ↦ rw here (ground (arith, none_active id p ks x))
  | inr other ↦ rw other (ground (arith, none_active id p ks x))
]

module _ (env : Env) (c : Crates) (raw scope id : String) where
  -- Once the revocation of a key id has returned, a verification right after it, of whatever raw
  -- key and scope, admits no context of that id.
  pub revoked_refused :
      (ctx : KeyContext) (found : Bool) (w : World)
      → (revoke_api_key env id w).0 ≡ ok found
      → (verify_api_key env c raw scope (revoke_api_key env id w).1).0 ≡ ok (some ctx)
      → ctx.id ≢ id
  unfolding revoke_api_key set_revoked
  revoked_refused ctx found w done admitted same =
      let granted =
        verify_api_key-granted c raw scope env ctx (revoke_api_key env id w).1 admitted in
      elim (exec_cases env (set_revoked id) w) [
        | inl e ↦ absurd (cc (rw e at done))
        | inr e ↦
            let none =
              none_active (sign c key_domain raw)
                (λ k. any (λ s. s == scope) (parse_scopes c k.scopes)) w.db.api_keys id in
            let left = rw same at (rw e at granted) in absurd (cc (left, none))
      ]

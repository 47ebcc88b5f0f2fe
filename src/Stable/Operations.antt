-- ===== src/Stable/Operations.antt =====
-- The operations beside the money, of the modules under src/: they are chains of statements.
use Prim.Native.String
use spritexai_pay_core.Prelude.{ltb, eqb, String, true, false, Option, none, some, [], ◌==◌}
use spritexai_pay_core.Crates.{Crates, Float64}
use spritexai_pay_core.Crypto.{sign}
use spritexai_pay_core.Db.{Tables, Env, ApiKey, KeyStatus, any}
use spritexai_pay_core.Stable.{
  Stable, Keeps, Keeps-pure, Keeps-bind, Keeps-new_v4, Keeps-exec, Keeps-if, Keeps-if_at,
}
use spritexai_pay_core.Stable.Rows
use spritexai_pay_core.Customer
use spritexai_pay_core.Customer.{CreateCustomer}
use spritexai_pay_core.Domain
use spritexai_pay_core.Domain.{check_host, is_allowed, host_of}
use spritexai_pay_core.Device
use spritexai_pay_core.Device.{RegisterGateway, stamp}
use spritexai_pay_core.Merchant
use spritexai_pay_core.Merchant.{
  CreateApiKey, admit, verify_api_key, parse_scopes, key_domain, scopes_of,
}
use spritexai_pay_core.Reconcile.{reconcile}
use spritexai_pay_core.Fraud.{
  scan, duplicate_txids, sender_mismatches, amount_outliers, outliers_above, min_sample_for_amount,
}

module _ {P : Tables → Type 0} (S : Stable P) (env : Env) where
  pub create_customer-Keeps : (req : CreateCustomer) → Keeps P (Customer.create env req)
  unfolding Customer.create
  create_customer-Keeps req = Keeps-bind (Keeps-new_v4 env) λ uuid.
      Keeps-bind (Keeps-exec S env _ (Rows.insert_customer-Framed (String.◌++◌ "cus_" uuid) req))
        λ u. Keeps-exec S env _ (Rows.select_one_customer-Framed (String.◌++◌ "cus_" uuid))

  pub create_domain-Keeps : (domain : String) → Keeps P (Domain.create env domain)
  unfolding Domain.create
  create_domain-Keeps domain = Keeps-bind (Keeps-new_v4 env) λ uuid.
      Keeps-bind (Keeps-exec S env _ (Rows.insert_domain-Framed (String.◌++◌ "dom_" uuid) domain))
        λ u. Keeps-exec S env _ (Rows.select_domain-Framed (String.◌++◌ "dom_" uuid))

  check_host-Keeps : (host : Option String) → Keeps P (check_host env host)
  unfolding check_host
  check_host-Keeps none = Keeps-pure false
  check_host-Keeps (some host) = Keeps-exec S env _ (Rows.find_domain-Framed host)

  pub is_allowed-Keeps : (url : Option String) → Keeps P (is_allowed env url)
  unfolding is_allowed
  is_allowed-Keeps none = Keeps-pure true
  is_allowed-Keeps (some url) =
      Keeps-bind (Keeps-exec S env _ Rows.count_domains-Framed)
        λ n. Keeps-if (eqb n 0) (Keeps-pure true) (check_host-Keeps (host_of url))

  pub register_gateway-Keeps : (req : RegisterGateway) → Keeps P (Device.register_gateway env req)
  unfolding Device.register_gateway
  register_gateway-Keeps req = Keeps-bind (Keeps-new_v4 env) λ uuid.
      Keeps-bind (Keeps-exec S env _ (Rows.insert_gateway-Framed (String.◌++◌ "gw_" uuid) req))
        λ u. Keeps-exec S env _ (Rows.select_gateway_config-Framed (String.◌++◌ "gw_" uuid))

  stamp-Keeps : (id : Option String) → Keeps P (stamp env id)
  unfolding stamp
  stamp-Keeps none = Keeps-pure tt
  stamp-Keeps (some id) = Keeps-exec S env _ (Rows.stamp_device-Framed id)

  module _ (crates : Crates) where
    pub pair_device-Keeps : (label : Option String) → Keeps P (Device.pair_device env crates label)
    unfolding Device.pair_device
    pair_device-Keeps label = Keeps-bind (Keeps-new_v4 env) λ uuid.
        Keeps-bind (Keeps-new_v4 env) λ token_0. Keeps-bind (Keeps-new_v4 env) λ token_1.
          Keeps-bind
            (Keeps-exec S env _ (
              Rows.insert_device-Framed (String.◌++◌ "dev_" uuid) label
                (sign crates "device-token" (String.◌++◌ "spx_" (String.◌++◌ token_0 token_1)))))
            λ u. Keeps-pure (record {
              id = String.◌++◌ "dev_" uuid;
              label = label;
              pairing_token = String.◌++◌ "spx_" (String.◌++◌ token_0 token_1);
            })

    pub exchange_token-Keeps : (token : String) → Keeps P (Device.exchange_token env crates token)
    unfolding Device.exchange_token
    exchange_token-Keeps token =
        Keeps-bind
          (Keeps-exec S env _ (Rows.select_active_device-Framed (sign crates "device-token" token)))
          λ id. Keeps-bind (stamp-Keeps id) (λ u. Keeps-pure id)

    pub create_api_key-Keeps :
        (req : CreateApiKey) → Keeps P (Merchant.create_api_key env crates req)
    unfolding Merchant.create_api_key
    create_api_key-Keeps req = Keeps-bind (Keeps-new_v4 env) λ uuid.
        Keeps-bind (Keeps-new_v4 env) λ raw_0. Keeps-bind (Keeps-new_v4 env) λ raw_1.
          Keeps-bind
            (Keeps-exec S env _ (
              Rows.insert_key-Framed (record {
                id = String.◌++◌ "ak_" uuid;
                key_sha256 = sign crates key_domain (String.◌++◌ "spk_" (String.◌++◌ raw_0 raw_1));
                label = req.label;
                scopes = crates.json_strings (scopes_of req.scopes);
                status = KeyStatus.active;
                created_at = 0;
                last_used_at = none;
              })))
            λ u. Keeps-pure (record {
              id = String.◌++◌ "ak_" uuid;
              label = req.label;
              scopes = scopes_of req.scopes;
              api_key = String.◌++◌ "spk_" (String.◌++◌ raw_0 raw_1);
            })

    admit-Keeps : (scope : String) (k : Option ApiKey) → Keeps P (admit env crates scope k)
    unfolding admit
    admit-Keeps scope none = Keeps-pure none
    admit-Keeps scope (some k) =
        Keeps-if_at (any (λ s. s == scope) (parse_scopes crates k.scopes))
          (Keeps-bind (Keeps-exec S env _ (Rows.stamp_key-Framed k.id)) (λ u. Keeps-pure _))
          (Keeps-pure none)

    pub verify_api_key-Keeps : (raw scope : String) → Keeps P (verify_api_key env crates raw scope)
    unfolding verify_api_key
    verify_api_key-Keeps raw scope =
        Keeps-bind (Keeps-exec S env _ (Rows.select_active_key-Framed (sign crates key_domain raw)))
          (admit-Keeps scope)

  pub reconcile-Keeps : (gateway : Option String) → Keeps P (reconcile env gateway)
  unfolding reconcile
  reconcile-Keeps gateway =
      Keeps-bind (Keeps-exec S env _ (Rows.select_settled-Framed gateway))
        λ totals. Keeps-bind (Keeps-exec S env _ Rows.count_pending-Framed) (λ n. Keeps-pure _)

  module _ (f : Float64) where
    outliers_above-Keeps : (avg : f.F) → Keeps P (outliers_above f env avg)
    unfolding outliers_above
    outliers_above-Keeps avg =
        Keeps-bind (Keeps-exec S env _ (Rows.select_above-Framed (f.round_i64 (f.times_ten avg))))
          (λ rows. Keeps-pure _)

    amount_outliers-Keeps : Keeps P (amount_outliers f env)
    unfolding amount_outliers
    amount_outliers-Keeps = Keeps-bind (Keeps-exec S env _ (Rows.select_norm-Framed f)) λ norm.
        Keeps-if (ltb norm.0 min_sample_for_amount) (Keeps-pure []) (outliers_above-Keeps norm.1)

    pub scan-Keeps : Keeps P (scan f env)
    unfolding scan duplicate_txids sender_mismatches
    scan-Keeps =
        Keeps-bind
          (Keeps-bind (Keeps-exec S env _ Rows.select_shared_txids-Framed) (λ rows. Keeps-pure _))
          λ duplicates.
            Keeps-bind
              (Keeps-bind (Keeps-exec S env _ Rows.select_mismatches-Framed) (λ rows. Keeps-pure _))
              λ mismatched. Keeps-bind amount_outliers-Keeps (λ outliers. Keeps-pure _)

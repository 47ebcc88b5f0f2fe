-- ===== src/Device.antt =====
-- src/device.rs: the registered gateways, and the pairing of the phones that forward SMS.
use Prim.Native.String
use spritexai_pay_core.Prelude.{
  ℕ, String, true, ◌&&◌, Option, none, some, List, [], ◌∷◌, ◌++◌, ◌==◌, if◌then◌else◌,
}
use spritexai_pay_core.Crates.{Crates}
use spritexai_pay_core.Crypto.{sign}
use spritexai_pay_core.Db.{
  Device, GatewayConfig, KeyStatus, is_active, ok, err, DbError, unique_violation, row_not_found,
  Env, M, pure, ◌>>=◌, ◌>>◌, Stmt, exec, new_v4, any, first, update, newest_first,
}

pub record RegisterGateway : Type 0 where
  pub gateway : String
  pub label : Option String
  pub account_msisdn : Option String

pub record PairedDevice : Type 0 where
  pub id : String
  pub label : Option String
  pub pairing_token : String

-- The columns that `list_devices` reads: the digest is not one of them.
pub record ListedDevice : Type 0 where
  pub id : String
  pub label : Option String
  pub status : KeyStatus
  pub last_seen_at : Option ℕ
  pub created_at : ℕ

unfoldable pub insert_gateway : String → RegisterGateway → Stmt Unit
insert_gateway id req t db =
    if any (λ r. r.id == id) db.gateway_configs
    then err unique_violation
    else ok (
      tt,
      record db {
        gateway_configs =
            db.gateway_configs
            ++ record {
              id = id;
              gateway = req.gateway;
              label = req.label;
              account_msisdn = req.account_msisdn;
              enabled = true;
              created_at = t;
            }
              ∷ [];
      },
    )

unfoldable pub select_gateway_config : String → Stmt GatewayConfig
select_gateway_config id t db = elim (first (λ r. r.id == id) db.gateway_configs) [
  | none ↦ err row_not_found
  | some g ↦ ok (g, db)
]

unfoldable pub select_gateways : Stmt (List GatewayConfig)
select_gateways t db = ok (newest_first (λ r. r.created_at) db.gateway_configs, db)

unfoldable pub insert_device : String → Option String → String → Stmt Unit
insert_device id label token_sha256 t db =
    if any (λ r. r.id == id) db.devices
    then err unique_violation
    else if any (λ r. r.token_sha256 == token_sha256) db.devices
    then err unique_violation
    else ok (
      tt,
      record db {
        devices =
            db.devices
            ++ record {
              id = id;
              label = label;
              token_sha256 = token_sha256;
              status = KeyStatus.active;
              last_seen_at = none;
              created_at = t;
            }
              ∷ [];
      },
    )

abbrev listed : List Device → List ListedDevice
listed [] = []
listed (d ∷ ds) =
    record {
      id = d.id;
      label = d.label;
      status = d.status;
      last_seen_at = d.last_seen_at;
      created_at = d.created_at;
    }
    ∷ listed ds

unfoldable pub select_devices : Stmt (List ListedDevice)
select_devices t db = ok (listed (newest_first (λ r. r.created_at) db.devices), db)

abbrev pub id_of : Option Device → Option String
id_of none = none
id_of (some d) = some d.id

unfoldable pub select_active_device : String → Stmt (Option String)
select_active_device digest t db =
    ok (id_of (first (λ r. r.token_sha256 == digest && is_active r.status) db.devices), db)

unfoldable pub stamp_device : String → Stmt Unit
stamp_device id t db = ok (
  tt,
  record db {
    devices = update (λ r. r.id == id) (λ r. record r { last_seen_at = some t }) db.devices;
  },
)

module _ (env : Env) where
  unfoldable pub register_gateway : RegisterGateway → M DbError GatewayConfig
  register_gateway req = do
    uuid ← new_v4 env
    let id = String.◌++◌ "gw_" uuid
    exec env (insert_gateway id req)
    exec env (select_gateway_config id)

  unfoldable pub list_gateways : M DbError (List GatewayConfig)
  list_gateways = exec env select_gateways

  unfoldable pub list_devices : M DbError (List ListedDevice)
  list_devices = exec env select_devices

  -- `if let Some(ref id) = device_id`
  unfoldable pub stamp : Option String → M DbError Unit
  stamp none = pure tt
  stamp (some id) = exec env (stamp_device id)

  module _ (c : Crates) where
    unfoldable pub pair_device : Option String → M DbError PairedDevice
    pair_device label = do
      uuid ← new_v4 env
      token_0 ← new_v4 env
      token_1 ← new_v4 env
      let id = String.◌++◌ "dev_" uuid
      let token = String.◌++◌ "spx_" (String.◌++◌ token_0 token_1)
      exec env (insert_device id label (sign c "device-token" token))
      pure (record { id = id; label = label; pairing_token = token })

    unfoldable pub exchange_token : String → M DbError (Option String)
    exchange_token token = do
      device_id ← exec env (select_active_device (sign c "device-token" token))
      stamp device_id
      pure device_id

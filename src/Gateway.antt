-- ===== src/Gateway.antt =====
-- class Gateway of relay_system/gateway.py. A method takes the object and the world, and returns both.
pub mod History
use post_quantum_iot_auth.Prelude.{
  ℕ, ◌+◌, Bool, true, false, List, [], ◌∷◌, ◌++◌, if◌then◌else◌, Bytes, Text, length,
}
use post_quantum_iot_auth.Python.{Result, ok, raised, Exec}
use post_quantum_iot_auth.Python.Text.{hex}
use post_quantum_iot_auth.Platform.{Platform}
use post_quantum_iot_auth.Falcon.{Flags, falcon_verify}
use post_quantum_iot_auth.Falcon.Crypto.{Libraries}

module _ (P : Platform) where
  open P use {Float, World}

  -- The dictionary that `relay_data` returns.
  pub record GatewayResult : Type 0 where
    pub device_did : Text
    pub data_hash : Text
    pub verified : Bool
    pub verify_time_ms : Float
    pub gateway_id : Text
    pub timestamp : Float
    pub payload_size : ℕ

  pub record Gateway : Type 0 where
    pub gateway_id : Text
    pub relayed_count : ℕ
    pub failed_count : ℕ
    pub batch : List GatewayResult

  unfoldable pub new_gateway : Text → Gateway
  new_gateway gateway_id = record {
    gateway_id = gateway_id;
    relayed_count = 0;
    failed_count = 0;
    batch = [];
  }

  -- `if verified: … else: …`
  abbrev pub count_result : GatewayResult → Gateway → Gateway
  count_result result g =
      if result.verified
      then record g { relayed_count = g.relayed_count + 1; batch = g.batch ++ result ∷ [] }
      else record g { failed_count = g.failed_count + 1 }

  -- `get_batch`
  unfoldable pub get_batch : Gateway → List GatewayResult × Gateway
  get_batch g = (g.batch, record g { batch = [] })

  unfoldable pub batch_size : Gateway → ℕ
  batch_size g = length g.batch

  module _ (L : Libraries P) (f : Flags) where
    -- `relay_data`, after the verification that began at `start`
    abbrev pub relay_result :
        Text
        → Bytes
        → Float
        → Result Bool
        → Gateway × World
        → Result GatewayResult × (Gateway × World)
    relay_result device_did payload start (raised e) s = (raised e, s)
    relay_result device_did payload start (ok verified) (g, w) =
        let (stop, w₁) = P.perf_counter w in
        let (now, w₂) = P.time w₁ in
        let result : GatewayResult = record {
          device_did = device_did;
          data_hash = hex (P.sha256 payload);
          verified = verified;
          verify_time_ms = P.mul (P.sub stop start) (P.float 1000);
          gateway_id = g.gateway_id;
          timestamp = now;
          payload_size = length payload;
        } in
        (ok result, (count_result result g, w₂))

    unfoldable pub relay_data : Text → Bytes → Bytes → Bytes → Exec (Gateway × World) GatewayResult
    relay_data device_did device_pubkey payload signature (g, w) =
        let (start, w₁) = P.perf_counter w in
        relay_result device_did payload start (falcon_verify P L f payload signature device_pubkey)
          (g, w₁)

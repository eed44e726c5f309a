-- ===== src/Hardhat/Client.antt =====
-- What relay_system/hardhat_backend.py takes from web3, eth_account and the file system.
use post_quantum_iot_auth.Prelude.{ℕ, Bool, List, Option, Bytes, Text}
use post_quantum_iot_auth.Python.{Result, Exec}
use post_quantum_iot_auth.Platform.{Platform}

-- A part of a signature, which eth_account gives as an integer or as bytes.
pub data Component : Type 0 where
  int : ℕ → Component
  raw : Bytes → Component

pub record EcdsaSignature : Type 0 where
  pub v : ℕ
  pub r : Component
  pub s : Component

-- The calls of contract functions that the backend sends.
pub data ContractCall : Type 0 where
  register_did : Bytes → Bytes → ContractCall
  submit_transaction : Bytes → Bytes → Bytes → Bool → ContractCall
  submit_verify_and_store : Bytes → ℕ → Bytes → Bytes → ContractCall
  submit_and_verify : Bytes → ℕ → Bytes → Bytes → ContractCall

-- What the backend reads of a receipt; the hash in hexadecimal.
pub record EvmReceipt : Type 0 where
  pub transaction_hash : Text
  pub gas_used : ℕ
  pub block_number : ℕ

-- A contract that was deployed: its handle, its address and the gas that this took.
pub record Deployed (Contract : Type 0) : Type 0 where
  pub contract : Contract
  pub address : Text
  pub gas_used : ℕ

pub record Web3 (P : Platform) : Type 1 where
  pub Contract : Type 0
  pub is_connected : P.World → Bool × P.World
  pub accounts : P.World → List Text × P.World
  -- whether the artifact of a contract is there and can be read
  pub load_artifact : Text → Result (Unit {0})
  -- `constructor(args).transact({"from": sender})` and the wait for its receipt
  pub deploy : Text → Option Text → Text → Exec P.World (Deployed Contract)
  -- `functions.f(args).transact({"from": sender})` and the wait for its receipt
  pub transact : Contract → ContractCall → Text → Exec P.World EvmReceipt
  pub keccak : Bytes → Bytes
  -- `Account.from_key(key).address`, and the signature of a hash
  pub address_of : Bytes → Result Text
  pub sign_hash : Bytes → Bytes → Result EcdsaSignature

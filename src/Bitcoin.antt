-- ===== src/Bitcoin.antt =====
-- The types and functions of libbitcoin that the program uses. A container of libbitcoin is the
-- record of what the program puts in by constructors and setters, or reads by accessors; whatever
-- libbitcoin computes is a field of `Libbitcoin`, which the modules take as a parameter.
use binglib.Base.{ℕ, String, Bool, Option, List}

-- data_chunk, hash_digest, short_hash, ec_secret and endorsement: arrays of bytes.
abbrev pub Bytes : Type 0
Bytes = List ℕ

-- chain::output_point
pub record OutputPoint : Type 0 where
  pub hash : Bytes
  pub index : ℕ

-- chain::point_value, an entry of points_value::points
pub record PointValue : Type 0 where
  pub hash : Bytes
  pub index : ℕ
  pub value : ℕ

-- machine::opcode, as far as the program names opcodes
pub data Opcode : Type 0 where
  checklocktimeverify drop checksig : Opcode

-- machine::operation, by the constructor that made it: of an opcode, or of data to push
pub data Operation : Type 0 where
  code : Opcode → Operation
  push : Bytes → Operation

-- chain::script, as its operations
abbrev pub Script : Type 0
Script = List Operation

-- chain::input
pub record Input : Type 0 where
  pub previous_output : OutputPoint
  pub script : Script
  pub sequence : ℕ

-- chain::output
pub record Output : Type 0 where
  pub value : ℕ
  pub script : Script

-- chain::transaction
pub record Transaction : Type 0 where
  pub version : ℕ
  pub locktime : ℕ
  pub inputs : List Input
  pub outputs : List Output

-- wallet::payment_address: its conversion to bool, version(), hash() and encoded()
pub record PaymentAddress : Type 0 where
  pub is_valid : Bool
  pub version : ℕ
  pub hash : Bytes
  pub encoded : String

-- wallet::ec_private: secret(), and the bytes of to_public()
pub record EcPrivate : Type 0 where
  pub secret : Bytes
  pub public_key : Bytes

pub record Libbitcoin : Type 0 where
  pub encode_hash : Bytes → String
  -- the digest that decode_hash leaves; the program ignores its result
  pub decode_hash : String → Bytes
  pub encode_base16 : Bytes → String
  pub decode_base16 : String → Option Bytes
  pub decode_base58 : String → Option Bytes
  pub sha256_hash : Bytes → Bytes
  pub bitcoin_short_hash : Bytes → Bytes
  -- the constructors of ec_private from a WIF text and of payment_address from its base58 form
  pub ec_private_of_wif : String → EcPrivate
  pub payment_address_of : String → PaymentAddress
  -- transaction::from_data, to_data and hash
  pub tx_from_data : Bytes → Option Transaction
  pub tx_to_data : Transaction → Bytes
  pub tx_hash : Transaction → Bytes
  -- script::is_valid, to_data(0), to_pay_key_hash_pattern, to_pay_script_hash_pattern and pattern
  pub script_is_valid : Script → Bool
  pub script_to_data : Script → Bytes
  pub pay_key_hash_pattern : Bytes → Script
  pub pay_script_hash_pattern : Bytes → Script
  pub script_pattern : Script → ℕ
  -- the endorsement that create_endorsement leaves: secret, script, transaction, input index
  pub create_endorsement : Bytes → Script → Transaction → ℕ → Bytes
  -- serializer::write_4_bytes_little_endian
  pub write_4_bytes_little_endian : ℕ → Bytes
  -- output::addresses with the two versions
  pub output_addresses : Output → ℕ → ℕ → List PaymentAddress
  -- points_value::value()
  pub points_total : List PointValue → ℕ
  -- select_outputs::algorithm::individual
  pub select_individual : ℕ
  pub mainnet_p2kh : ℕ
  pub mainnet_p2sh : ℕ
  pub testnet_p2kh : ℕ
  pub testnet_p2sh : ℕ
  -- script_pattern::pay_script_hash
  pub pay_script_hash : ℕ

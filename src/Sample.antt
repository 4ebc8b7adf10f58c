-- ===== src/Sample.antt =====
-- Small stand-ins for what the repository does not implement, at which the tests and the examples
-- run: libbitcoin's functions and the two servers, over a world that counts the requests.
pub mod Paid
use binglib.Base.{
  leb, ℕ, suc, ◌-◌, String, true, false, ◌||◌, none, some, List, [], ◌∷◌, ◌++◌, map, length,
  if◌then◌else◌,
}
use binglib.Base.Int.{pos, negsuc}
use binglib.Base.Text.{str_eq, codes, digit, written}
use binglib.Base.Effect.{ok}
use binglib.Bitcoin.{Bytes, Libbitcoin, PaymentAddress, EcPrivate, Transaction, PointValue}
use binglib.Electrum.{ElectrumInterface, AddressHistory, Utxo}
use binglib.Libb.{ObeliskClient, replied}
use binglib.Script.Lock.{little_endian}
use binglib.Funds.Points.{total_value}

-- The text of some bytes below 10, and the bytes of such a text.
abbrev pub hex_of : Bytes → String
hex_of bytes = written (map digit bytes)

abbrev pub bytes_of : String → Bytes
bytes_of s = map (λ c. c - 48) (codes s)

abbrev pub payload : Bytes
payload = 1 ∷ 2 ∷ 3 ∷ 4 ∷ 5 ∷ 6 ∷ 7 ∷ 8 ∷ 9 ∷ 0 ∷ 1 ∷ 2 ∷ 3 ∷ 4 ∷ 5 ∷ 6 ∷ 7 ∷ 8 ∷ 9 ∷ 0 ∷ []

abbrev pub address_of : String → PaymentAddress
address_of s = record {
  is_valid = str_eq s "src" || str_eq s "dst";
  version = 0x6f;
  hash = codes s;
  encoded = s;
}

-- A transaction that pays 5 to the address "src".
abbrev pub paying : Transaction
paying = record {
  version = 1;
  locktime = 0;
  inputs = [];
  outputs = record { value = 5; script = [] } ∷ [];
}

abbrev pub sample_lib : Libbitcoin
sample_lib = record {
  encode_hash = hex_of;
  decode_hash = bytes_of;
  encode_base16 = hex_of;
  decode_base16 = λ s. if str_eq s "" then none else some (bytes_of s);
  decode_base58 = λ s. some (0x6f ∷ (payload ++ 1 ∷ 1 ∷ 1 ∷ 1 ∷ []));
  sha256_hash = λ bytes. bytes;
  bitcoin_short_hash = λ bytes. bytes;
  ec_private_of_wif = λ s. record { secret = bytes_of s; public_key = 2 ∷ [] };
  payment_address_of = address_of;
  tx_from_data = λ bytes. some paying;
  tx_to_data = λ tx. length tx.inputs ∷ length tx.outputs ∷ [];
  tx_hash = λ tx. length tx.inputs ∷ length tx.outputs ∷ [];
  script_is_valid = λ script. true;
  script_to_data = λ script. length script ∷ [];
  pay_key_hash_pattern = λ hash. [];
  pay_script_hash_pattern = λ hash. [];
  script_pattern = λ script. 3;
  create_endorsement = λ secret script tx i. i ∷ length tx.outputs ∷ secret;
  write_4_bytes_little_endian = little_endian;
  output_addresses = λ o p2kh p2sh. address_of "src" ∷ [];
  points_total = total_value;
  select_individual = 1;
  mainnet_p2kh = 0;
  mainnet_p2sh = 5;
  testnet_p2kh = 0x6f;
  testnet_p2sh = 0xc4;
  pay_script_hash = 6;
}

abbrev pub key : EcPrivate
key = record { secret = 4 ∷ []; public_key = 2 ∷ [] }

abbrev pub point : ℕ → ℕ → PointValue
point index value = record { hash = 1 ∷ []; index = index; value = value }

abbrev pub three_points : List PointValue
three_points = point 0 0 ∷ point 1 30 ∷ point 2 50 ∷ []

abbrev pub two_utxos : List Utxo
two_utxos =
    record { tx_pos = 0; tx_id = "1"; value = 0; height = pos 7 }
    ∷ record { tx_pos = 1; tx_id = "2"; value = 40; height = pos 8 }
    ∷ []

abbrev pub obelisk : ObeliskClient ℕ
obelisk = record {
  blockchain_fetch_unspent_outputs =
      λ address satoshis algorithm w. (ok (replied three_points), suc w);
  blockchain_fetch_transaction = λ txid w. (ok (replied paying), suc w);
  transaction_pool_broadcast = λ tx w. (ok (replied none), suc w);
  blockchain_fetch_last_height = λ w. (ok (replied 700), suc w);
}

-- The points worth so many satoshis each, or more.
abbrev pub worth : ℕ → List PointValue → List PointValue
worth satoshis [] = []
worth satoshis (p ∷ ps) = if leb satoshis p.value then p ∷ worth satoshis ps else worth satoshis ps

-- A server that lists these.
abbrev pub individual_obelisk : ObeliskClient ℕ
individual_obelisk = record obelisk {
  blockchain_fetch_unspent_outputs =
      λ address satoshis algorithm w. (ok (replied (worth satoshis three_points)), suc w);
}

abbrev pub one_item : AddressHistory
one_item = record { txid = "11"; height = pos 7; fresh = false } ∷ []

abbrev pub server : ElectrumInterface ℕ
server = record {
  scripthash_subscribe = λ spkh w. (ok tt, suc w);
  scripthash_subscribe_bulk = λ spkhs w. (ok tt, suc w);
  get_history = λ spkh w. (ok one_item, suc w);
  get_history_bulk = λ spkhs callbacks w. (ok (map (λ spkh. one_item) spkhs), suc w);
  get_transaction = λ txid w. (ok "12", suc w);
  get_transaction_bulk = λ txids callbacks w. (ok (map (λ txid. "12") txids), suc w);
  get_balance = λ spkh w. (ok (record { confirmed = pos 60; unconfirmed = negsuc 0 }), suc w);
  get_utxos = λ spkh w. (ok two_utxos, suc w);
}

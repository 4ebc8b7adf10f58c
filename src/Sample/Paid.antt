-- ===== src/Sample/Paid.antt =====
-- A server that knows two transactions, which the tests of the caches and of the balances ask: "11" pays
-- 5 to the address "src", and "22" spends that and pays 3 to the address "dst".
use binglib.Base.{
  ℕ, suc, ◌==◌, String, false, some, [], ◌∷◌, map, if◌then◌else◌, null, refl, inl, inr,
}
use binglib.Base.Int.{pos}
use binglib.Base.Text.{str_eq}
use binglib.Base.Effect.{ok}
use binglib.Base.Dict.{insert}
use binglib.Base.Dict.Everywhere.{Everywhere-insert}
use binglib.Bitcoin.{Libbitcoin, Transaction, Output}
use binglib.Electrum.{ElectrumInterface, AddressHistory}
use binglib.Sample.{sample_lib, server, paying, address_of, hex_of}
use binglib.WalletState.{WalletState, fresh_state}
use binglib.WalletState.Stored.{IsAnsweredInBulk}
use binglib.WalletState.Coherent.{IsAnswered, IsCoherent, IsText, IsHistory}

abbrev pub first_output : Output
first_output = record { value = 5; script = [] }

abbrev pub spending : Transaction
spending = record {
  version = 1;
  locktime = 0;
  inputs =
      record {
        previous_output = record { hash = 1 ∷ 1 ∷ []; index = 0 };
        script = [];
        sequence = 0;
      }
      ∷ [];
  outputs = record { value = 3; script = [] } ∷ [];
}

abbrev pub paid_lib : Libbitcoin
paid_lib = record sample_lib {
  tx_from_data = λ bytes. some (if str_eq (hex_of bytes) "12" then paying else spending);
  tx_hash = λ tx. if null tx.inputs then 1 ∷ 1 ∷ [] else 2 ∷ 2 ∷ [];
  output_addresses = λ o p2kh p2sh. address_of (if o.value == 5 then "src" else "dst") ∷ [];
}

abbrev pub paid_tx : String → Transaction
paid_tx txid = if str_eq txid "11" then paying else spending

abbrev pub paid_hex : String → String
paid_hex txid = if str_eq txid "11" then "12" else "34"

abbrev pub paid_spkh : String → String
paid_spkh a = "09876543210987654321"

abbrev pub paid_history : String → AddressHistory
paid_history spkh =
    record { txid = "11"; height = pos 7; fresh = false }
    ∷ record { txid = "22"; height = pos 8; fresh = false }
    ∷ []

abbrev pub paid_server : ElectrumInterface ℕ
paid_server = record server {
  get_history = λ spkh w. (ok (paid_history spkh), suc w);
  get_history_bulk = λ spkhs callbacks w. (ok (map paid_history spkhs), suc w);
  get_transaction = λ txid w. (ok (paid_hex txid), suc w);
  get_transaction_bulk = λ txids callbacks w. (ok (map paid_hex txids), suc w);
}

-- A wallet of both addresses, which knows the history of the first and one of the transactions.
abbrev pub known_wallet : (W : Type 0) → WalletState W
known_wallet W = record (fresh_state ("src" ∷ "dst" ∷ []) [] []) {
  txid_to_txhex_cache = insert "11" "12" [];
  history_cache = insert "src" (paid_history "") [];
}

pub paid_server-IsAnswered : IsAnswered paid_server paid_history paid_hex
paid_server-IsAnswered = record { histories = λ spkh w. refl; txs = λ txid w nonempty. refl }

abbrev pub paid_wallet : WalletState ℕ
paid_wallet = known_wallet ℕ

pub known_wallet-IsCoherent :
    (W : Type 0) → IsCoherent paid_history paid_hex paid_spkh (known_wallet W)
known_wallet-IsCoherent W = record {
  texts =
      Everywhere-insert (IsText paid_history paid_hex paid_spkh) "" "11" "12" [] (inr refl)
        (λ k. inl refl);
  histories =
      Everywhere-insert (IsHistory paid_history paid_hex paid_spkh) [] "src" (paid_history "") []
        (inr refl) (λ k. inl refl);
  flags = λ k. inl refl;
}

pub paid_server-IsAnsweredInBulk : IsAnsweredInBulk paid_server paid_history paid_hex
paid_server-IsAnsweredInBulk = record {
  histories = λ spkhs callbacks w. refl;
  txs = λ txids callbacks w. refl;
}

pub paid_wallet-IsCoherent : IsCoherent paid_history paid_hex paid_spkh paid_wallet
paid_wallet-IsCoherent = known_wallet-IsCoherent ℕ

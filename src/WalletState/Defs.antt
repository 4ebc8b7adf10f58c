-- ===== src/WalletState/Defs.antt =====
-- The class WalletState, method by method.
use binglib.Base.{ℕ, String, Bool, true, false, not, none, some, List, [], ◌∷◌, map, if◌then◌else◌}
use binglib.Base.Int.{ℤ, pos, ltb_ℤ, eqb_ℤ}
use binglib.Base.Text.{str_lt, contains}
use binglib.Base.Dict.{Dict, insert, index}
use binglib.Base.Effect.{Action, Result, ok, err, invalid_argument, on_object}
use binglib.Bitcoin.{Bytes, Libbitcoin, Transaction}
use binglib.Electrum.{AddressHistoryItem, ProgressCallback}
use binglib.Converter.{base58_to_spkh_hex}
use binglib.Queue.{BlockingQueue}
use binglib.Queue
use binglib.Wallet.{AddressDerivationResult}

pub record TransactionInfo : Type 0 where
  pub tx : Transaction
  pub height : ℤ
  pub fresh : Bool

-- balance_delta is an int64_t, as its bit pattern.
pub record HistoryViewRow : Type 0 where
  pub timestamp : ℕ
  pub height : ℤ
  pub balance_delta : ℕ
  pub tx_id : String
  pub balance : ℕ
  pub is_p2sh : Bool
  pub funding_amount : ℕ
  pub funding_address : String
  pub fresh : Bool

pub record WalletState (W : Type 0) : Type 0 where
  pub addresses : List String
  pub spkh_to_address : Dict String
  pub txid_to_txhex_cache : Dict String
  pub history_cache : Dict (List AddressHistoryItem)
  pub history_cache_empty : Dict Bool
  pub all_history : List AddressHistoryItem
  pub address_to_data : Dict AddressDerivationResult
  pub history_queue : BlockingQueue (List HistoryViewRow)
  pub balance_queue : BlockingQueue (Dict ℕ)
  pub historyhash_queue : BlockingQueue (Dict String)
  pub progress_callbacks : List (ProgressCallback W)

-- A method on the wallet and the server's world.
abbrev pub Method : Type 0 → Type 0 → Type 0
Method W A = Action (WalletState W × W) A

abbrev pub update : {W : Type 0} → (WalletState W → WalletState W) → Method W (Unit {0})
update f = on_object (λ s. (tt {0}, f s))

-- The constructor's loop over the addresses.
pub map_spkh : Libbitcoin → List String → Dict String → Result (Dict String)
map_spkh lib [] spkhs = ok spkhs
map_spkh lib (address ∷ addresses) spkhs = elim (base58_to_spkh_hex lib address) [
  | ok spkh ↦ map_spkh lib addresses (insert spkh address spkhs)
  | err e ↦ err e
]

abbrev pub fresh_state :
    {W : Type 0} → List String → Dict AddressDerivationResult → Dict String → WalletState W
fresh_state addresses address_to_data spkhs = record {
  addresses = addresses;
  spkh_to_address = spkhs;
  txid_to_txhex_cache = [];
  history_cache = [];
  history_cache_empty = [];
  all_history = [];
  address_to_data = address_to_data;
  history_queue = Queue.empty;
  balance_queue = Queue.empty;
  historyhash_queue = Queue.empty;
  progress_callbacks = [];
}

unfoldable pub new_wallet_state :
    {W : Type 0} → Libbitcoin → List String → Dict AddressDerivationResult → Result (WalletState W)
unfolding map_spkh
new_wallet_state lib addresses address_to_data = elim (map_spkh lib addresses []) [
  | ok spkhs ↦ ok (fresh_state addresses address_to_data spkhs)
  | err e ↦ err e
]

abbrev pub is_in_wallet : {W : Type 0} → WalletState W → String → Bool
is_in_wallet s address = contains address s.addresses

-- operator[] on spkh_2_address_, which inserts an empty address for an unknown hash
abbrev pub spkh_2_address : {W : Type 0} → String → WalletState W → String × WalletState W
spkh_2_address spkh s =
    let (address, spkhs) = index "" spkh s.spkh_to_address in
    (address, record s { spkh_to_address = spkhs })

abbrev tx_of_chunk : Libbitcoin → Bytes → Result Transaction
tx_of_chunk lib chunk = elim (lib.tx_from_data chunk) [
  | none ↦ err (invalid_argument "could not decode transaction")
  | some tx ↦ ok tx
]

unfoldable pub hex_2_tx : Libbitcoin → String → Result Transaction
hex_2_tx lib tx_hex = elim (lib.decode_base16 tx_hex) [
  | none ↦ err (invalid_argument "could not decode raw hex transaction")
  | some chunk ↦ tx_of_chunk lib chunk
]

abbrev pub with_freshness : Bool → AddressHistoryItem → AddressHistoryItem
with_freshness fresh item = record item { fresh = fresh }

abbrev pub txids_of : List AddressHistoryItem → List String
txids_of items = map (λ item. item.txid) items

-- std::set ordered by txid: an item with a txid that is there is not inserted.
unfoldable pub set_insert : AddressHistoryItem → List AddressHistoryItem → List AddressHistoryItem
set_insert item [] = item ∷ []
set_insert item (x ∷ xs) =
    if str_lt item.txid x.txid
    then item ∷ x ∷ xs
    else if str_lt x.txid item.txid
    then x ∷ set_insert item xs
    else x ∷ xs

abbrev pub set_insert_all :
    List AddressHistoryItem → List AddressHistoryItem → List AddressHistoryItem
set_insert_all [] set = set
set_insert_all (item ∷ items) set = set_insert_all items (set_insert item set)

-- The comparison of sort_all_history.
unfoldable pub comes_before : AddressHistoryItem → AddressHistoryItem → Bool
comes_before lhs rhs =
    if not (eqb_ℤ lhs.height rhs.height)
    then (if eqb_ℤ lhs.height (pos 0)
        then true
        else if eqb_ℤ rhs.height (pos 0)
        then false
        else ltb_ℤ rhs.height lhs.height)
    else str_lt rhs.txid lhs.txid

-- std::sort, by insertion.
unfoldable pub sort_insert : AddressHistoryItem → List AddressHistoryItem → List AddressHistoryItem
sort_insert item [] = item ∷ []
sort_insert item (x ∷ xs) = if comes_before x item then x ∷ sort_insert item xs else item ∷ x ∷ xs

unfoldable pub sort_history : List AddressHistoryItem → List AddressHistoryItem
unfolding sort_insert
sort_history [] = []
sort_history (item ∷ items) = sort_insert item (sort_history items)

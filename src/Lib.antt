-- ===== src/Lib.antt =====
-- A model of binglib, a C++ library for Bitcoin wallets over an Electrum server or a libbitcoin
-- server, and the theorems that show its parts correct.
--
-- The parts, by the files of the repository, and where they are modelled:
--   src/common/bing_exception.hpp            Base/Effect: exceptions as values, methods as actions
--   src/electrumclient/electrum_model.cpp,
--   src/electrumclient/electrum_interface.hpp  Electrum: the answers of an Electrum server, and the
--       interface as a record of actions on a world; Electrum/Requests and Electrum/Answers: their JSON
--   src/libbitcoinclient/libb_client.cpp     Libb: the requests of a libbitcoin server; Libb/Connect:
--       how the connection to it is made
--   src/libbfunds/funds_finder.cpp           Funds: the choice of the outputs that pay (find_funds)
--   src/utility/address_converter.cpp        Converter: addresses as Electrum's script hashes
--   src/libbscript/redeem_script.cpp         Script: the script that locks funds until a time
--   src/locktx/online_lock_tx_creator.cpp    LockTx, and Tx for the loops that it shares with
--   src/p2pkhtx/online_p2pkh_tx_creator.cpp  P2pkhTx
--   src/unlocktx/offline_unlock_tx_creator.cpp  UnlockTx: spends what LockTx has locked
--   src/libbfunds/purse_accessor.cpp         Purse: which address pays, and scans of a wallet
--   src/wallet/bing_wallet.cpp               Wallet: the addresses of a seed phrase
--   src/utility/blocking_queue.hpp           Queue: updates for the user interface
--   src/ronghuaclient/ronghua_input_queue.cpp  InputQueue: what the server has sent
--   src/ronghuaclient/ronghua_socket_client.cpp  Socket: the connection to the server, on bytes
--   src/ronghuaclient/ronghua_client.cpp     Client: the requests (Client/Bulk: those in bulk), over
--       the interface Connection, which Client/Wire fills with the functions of Socket, and
--       Client/Lifecycle: init and stop, with the connection and the handshake of the socket client
--   src/walletstate/wallet_state.cpp         WalletState: the caches and the list of transactions
--   src/historyinspector/history_inspector.cpp  History: balances and the rows of the history
--
-- How they interact: a creator of a transaction asks one of the servers for the outputs of an
-- address, lets Funds choose, and builds and signs a transaction with Tx. HistoryInspector works on
-- WalletState, which asks the Electrum server for what it has not cached, and pushes its results
-- into the queues of WalletState. RonghuaClient is that server: it sends a request over the socket
-- client and waits in the queue until the reader's thread has pushed the message with the request's
-- id. These compositions have modules of their own: Purse/Pays and Purse/Refused (the search for
-- funds and the transfer that they pay for), WalletState/Coherent, Loaded and InBulk (the caches
-- over a server whose answers do not change), History/Served and History/Agreement (balances and
-- rows over those caches), Client/Cached (the caches over the client).
--
-- How code becomes a definition: a method that may throw is an action, a function from a state to a
-- result and the state left behind, which stays if the method throws. The state is the object and a
-- world `W`, which stands for the servers and the connection. A container passed by reference is a
-- part of the state, or goes in and comes back. The names are those of the source; helpers are named
-- for the lines they stand for. uint64_t is a number below 2 ^ 64 and its operations wrap around
-- (Base/Word); an int64_t is its bit pattern. std::map is an association list, std::set a sorted list.
-- Operations that hold a mutex are atomic: an execution of several threads is a sequence of them, and
-- a wait is an operation that is not possible while its condition does not hold.
--
-- What is not in the repository is a parameter: libbitcoin's functions (the record Libbitcoin in
-- Bitcoin), its key derivation (Derivation in Wallet), obelisk_client (ObeliskClient in Libb),
-- nlohmann::json (JsonLibrary in Json), the socket (Network in Socket, Connector in Client/Lifecycle),
-- the connection of obelisk_client (Libb/Connect) and the text of a local time. A theorem that relies
-- on them names what it relies on. Sample and Sample/Paid hold functions at which the tests and the examples
-- run, and Json/Samples a JSON library for them.
--
-- Loops run over lists, or over a count that is known before, so there is no fuel, but for the loops of
-- the bulk requests, which run until every parameter has its answer: they take the number of rounds as
-- fuel, which is enough if it is above the number of parameters and each wait gets an answer. A loop
-- that has used it up, and a wait that never ends, are `blocked`, which nothing catches; a step outside
-- the rules of C++ is `undefined_behaviour`, an outcome that says nothing of what the code does from
-- there on. A std::string of the JSON texts has one byte per character.
--
-- Not modelled: verify_certificate of RonghuaSocketClient, which returns what OpenSSL found, the
-- destructors, and methods that only return a field. id_counter is a number that does not overflow, and
-- the client's methods are called after init.
pub mod Base
pub mod Bitcoin
pub mod Electrum
pub mod Json
pub mod Funds
pub mod Libb
pub mod Converter
pub mod Purse
pub mod Queue
pub mod InputQueue
pub mod Socket
pub mod Client
pub mod Script
pub mod Tx
pub mod LockTx
pub mod P2pkhTx
pub mod UnlockTx
pub mod Wallet
pub mod WalletState
pub mod History
pub mod Sample

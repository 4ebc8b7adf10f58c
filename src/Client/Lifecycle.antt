-- ===== src/Client/Lifecycle.antt =====
-- How the client comes to its connection and gives it up: RonghuaClient::init and stop, and what they call
-- of RonghuaSocketClient. boost::asio is the parameter Connector.
use binglib.Base.{String, ◌≡◌, refl, Bool, true, false, Option, none, some, List, []}
use binglib.Base.Effect.{Action, ok, ◌>>=◌, ◌>>◌, on_world, modify, pure}
use binglib.Json.{JsonLibrary}
use binglib.Socket.{
  SocketClient, ElectrumErrorEvent, ElectrumErrorCallback, push_error, notify, run_receiving_loop,
  async_read,
}
use binglib.Socket.Reassembly.{listening}

pub record Connector (E W : Type 0) : Type 0 where
  -- resolver.resolve, `none` for an error code
  pub resolve : String → String → Action W (Option E)
  pub load_verify_file : String → Action W (Unit {0})
  -- async_connect and async_handshake, run to their end: the error that their handler gets
  pub async_connect : E → W → Option ElectrumErrorEvent × W
  pub async_handshake : W → Option ElectrumErrorEvent × W

module _ {J E W : Type 0} (connector : Connector E W) where
  abbrev shake_hands : Option ElectrumErrorEvent × W → SocketClient J W → SocketClient J W × W
  shake_hands (none, w) s = (s, w)
  shake_hands (some error, w) s = push_error error (s, w)

  unfoldable pub handshake : SocketClient J W × W → SocketClient J W × W
  handshake (s, w) = shake_hands (connector.async_handshake w) s

  abbrev connected : Option ElectrumErrorEvent × W → SocketClient J W → SocketClient J W × W
  connected (none, w) s = handshake (s, w)
  connected (some error, w) s = push_error error (s, w)

  unfoldable pub connect : E → SocketClient J W × W → SocketClient J W × W
  connect endpoints (s, w) = connected (connector.async_connect endpoints w) s

  -- A new RonghuaSocketClient for the flag and the callbacks of RonghuaClient, and the io_context's run.
  abbrev new_client : E → SocketClient J W × W → SocketClient J W × W
  new_client endpoints (s, w) =
      connect endpoints (record s { queue = []; oss = []; reading = false }, w)

  abbrev init_at : String → Option E → Action (SocketClient J W × W) Bool
  init_at cert_file_path none = pure false
  init_at cert_file_path (some endpoints) = do
    on_world (connector.load_verify_file cert_file_path)
    modify (new_client endpoints)
    modify (λ s. (run_receiving_loop s.0, s.1))
    pure true

  unfoldable pub init : String → String → String → Action (SocketClient J W × W) Bool
  init hostname service cert_file_path = do
    endpoints ← on_world (connector.resolve hostname service)
    init_at cert_file_path endpoints

-- The socket is closed, and no handler runs any more.
unfoldable pub stop : {J W : Type 0} → SocketClient J W → SocketClient J W
stop s = record s { reading = false }

module _ {J E W : Type 0} (json : JsonLibrary J) (connector : Connector E W)
    (callbacks : List (ElectrumErrorCallback W)) where
  -- What the callbacks hear of an error.
  abbrev told : Option ElectrumErrorEvent × W → W
  told (none, w) = w
  told (some error, w) = notify error callbacks w

  abbrev told_of_connection : Option ElectrumErrorEvent × W → W
  told_of_connection (none, w) = told (connector.async_handshake w)
  told_of_connection (some error, w) = notify error callbacks w

  shake_hands-told :
      (outcome : Option ElectrumErrorEvent × W) (s : SocketClient J W)
      → s.electrum_error_callbacks ≡ callbacks
      → shake_hands connector outcome s ≡ (s, told outcome)
  unfolding push_error
  shake_hands-told (none, w) s same = refl
  shake_hands-told (some error, w) s same = rw same refl

  connected-told :
      (outcome : Option ElectrumErrorEvent × W) (s : SocketClient J W)
      → s.electrum_error_callbacks ≡ callbacks
      → connected connector outcome s ≡ (s, told_of_connection outcome)
  unfolding push_error handshake
  connected-told (none, w) s same = shake_hands-told (connector.async_handshake w) s same
  connected-told (some error, w) s same = rw same refl

  -- If the name is resolved, the file is loaded and no interrupt was requested, then init returns true with
  -- a client that reads, from an empty queue and with nothing left over, whether or not the
  -- connection and the handshake succeed: their errors are only told to the callbacks.
  init-listening :
      (hostname service cert_file_path : String) (s : SocketClient J W) (w w' w'' : W)
      (endpoints : E)
      → s.electrum_error_callbacks ≡ callbacks
      → s.interrupt_requested ≡ false
      → connector.resolve hostname service w ≡ (ok (some endpoints), w')
      → connector.load_verify_file cert_file_path w' ≡ (ok tt, w'')
      → init connector hostname service cert_file_path (s, w) ≡ (
        ok true,
        (
          listening json [] [] callbacks,
          told_of_connection (connector.async_connect endpoints w''),
        ),
      )
  unfolding init connect async_read
  init-listening hostname service cert_file_path s w w' w'' endpoints same free resolved loaded =
      rw
        (
          resolved,
          loaded,
          connected-told (connector.async_connect endpoints w'')
              (record s { queue = []; oss = []; reading = false }) same,
          free,
          same,
        )
        refl

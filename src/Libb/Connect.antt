-- ===== src/Libb/Connect.antt =====
-- How LibbClient comes to its connection: init, re_init and do_connect of libb_client.cpp. The types `C` and `E`
-- of clients and of endpoints, and what is done with them, are libbitcoin's.
use binglib.Base.{not, String, ◌≡◌, refl, Bool, false, Option, some}
use binglib.Base.Effect.{
  Action, Result, ok, err, invalid_argument, throw_if, lift, modify, gets, on_world, ◌>>=◌, ◌>>◌,
}

pub record ObeliskConnection (C E W : Type 0) : Type 0 where
  -- new client::obelisk_client(connection_)
  pub new_client : Action W C
  -- config::endpoint(url), which throws for a text that is none
  pub endpoint : String → Result E
  -- client.connect(connection_)
  pub connect : C → E → Action W Bool

pub record LibbClient (C E : Type 0) : Type 0 where
  -- connection_.server
  pub server : Option E
  pub client : Option C
  pub url : String

module _ {C E W : Type 0} (obelisk : ObeliskConnection C E W) where
  abbrev do_connect : C → E → Action (LibbClient C E × W) (Unit {0})
  do_connect client server = do
    connected ← on_world (obelisk.connect client server)
    throw_if (not connected) (invalid_argument "Connection Failed")

  unfoldable pub re_init : Action (LibbClient C E × W) (Unit {0})
  re_init = do
    client ← on_world obelisk.new_client
    modify (λ s. (record s.0 { client = some client }, s.1))
    url ← gets (λ s. s.0.url)
    server ← lift (obelisk.endpoint url)
    modify (λ s. (record s.0 { server = some server }, s.1))
    do_connect client server

  unfoldable pub init : String → Action (LibbClient C E × W) (Unit {0})
  init url = do modify (λ s. (record s.0 { url = url }, s.1)); re_init

  -- What init leaves behind when the server does not take the connection: the exception is thrown with the
  -- new client, the address and the text of it in place.
  init_refused :
      (url : String) (s : LibbClient C E) (w w' w'' : W) (client : C) (server : E)
      → obelisk.new_client w ≡ (ok client, w')
      → obelisk.endpoint url ≡ ok server
      → obelisk.connect client server w' ≡ (ok false, w'')
      → init url (s, w) ≡ (
        err (invalid_argument "Connection Failed"),
        (record { server = some server; client = some client; url = url }, w''),
      )
  unfolding init re_init
  init_refused url s w w' w'' client server made known refused = rw (made, known, refused) refl

-- ===== src/Client/Limits.antt =====
-- The fixed array that a request is copied into.
use Prim.Native.String.{String}
use text.Mathlib.TextLemmas.{nil-append, cons-append}
use binglib.Base.{
  suc, ◌+◌, ◌≡◌, ◌≤◌, refl, false, [], ◌∷◌, length, leb, arith, gt→leb, le→leb, ◌<◌, true,
}
use binglib.Base.Int.{pos}
use binglib.Base.Text.{codes, concat}
use binglib.Base.Effect.{err, undefined_behaviour}
use binglib.Json.{JsonLibrary}
use binglib.Electrum.Requests.{electrum_request_to_json}
use binglib.Socket.{Network, SocketClient, request_text}
use binglib.Socket
use binglib.Client.{RonghuaClient, request_as, send_request, broadcast_transaction}
use binglib.Client.Wire.{wire}

length-concat : (s t : String) → length (codes (concat s t)) ≡ length (codes s) + length (codes t)
length-concat String.[] t = rw (nil-append t) (omega arith)
length-concat (String.◌∷◌ c s) t = rw (cons-append c s t) (omega (arith, length-concat s t))

-- The request of broadcastTransaction.
abbrev broadcast_request : {J : Type 0} → JsonLibrary J → RonghuaClient → String → J
broadcast_request json client tx_hex = electrum_request_to_json json (record {
  method = "blockchain.transaction.broadcast";
  id = pos (suc client.id_counter);
  params = tx_hex ∷ [];
})

module _ {J W : Type 0} (json : JsonLibrary J) (network : Network W) where
  send_too_long :
      (request : J) (s : SocketClient J W × W)
      → 1535 ≤ length (codes (json.dump request))
      → (Socket.send_request json network request s).0 ≡ err undefined_behaviour
  unfolding Socket.send_request
  send_too_long request s long =
      let over : leb (suc (length (request_text json request))) 1536 ≡ false =
        gt→leb _ _ (omega (arith, length-concat (json.dump request) "\n")) in
      rw over refl

  send_fits :
      (request : J) (s : SocketClient J W) (w : W)
      → length (codes (json.dump request)) < 1535
      → Socket.send_request json network request (s, w) ≡ (
        (network.write (request_text json request) w).0,
        (s, (network.write (request_text json request) w).1),
      )
  unfolding Socket.send_request
  send_fits request s w short =
      let within : leb (suc (length (request_text json request))) 1536 ≡ true =
        le→leb _ _ (omega (arith, length-concat (json.dump request) "\n")) in
      rw within refl

  -- A request whose dump has less than 1535 characters goes to the network with a line feed behind it. But if
  -- the dump of a broadcast is at least as long as its parameter, then broadcasting a transaction whose
  -- hex text has 1535 characters or more, which is 768 bytes, copies the request beyond the end of a
  -- local array: the behaviour is undefined.
  pub broadcast_too_long :
      (tx_hex : String) (request : J) (client : RonghuaClient) (socket : SocketClient J W) (w : W)
      → length (codes (json.dump request)) < 1535
      → length (codes tx_hex) ≤ length (codes (json.dump (broadcast_request json client tx_hex)))
      → 1535 ≤ length (codes tx_hex)
      → ((broadcast_transaction json (wire json network) tx_hex (client, (socket, w))).0
          ≡ err undefined_behaviour)
        × (Socket.send_request json network request (socket, w) ≡ (
          (network.write (request_text json request) w).0,
          (socket, (network.write (request_text json request) w).1),
        ))
  unfolding broadcast_transaction request_as send_request
  broadcast_too_long tx_hex request client socket w short holds long = (
    rw
        (send_too_long (broadcast_request json client tx_hex) (socket, w)
          (omega (arith, holds, long)))
        refl,
    send_fits request socket w short,
  )

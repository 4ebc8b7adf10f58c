-- ===== src/Client/Bulk/Sends.antt =====
-- The first loop of a bulk request, from the answers of the connection along its run.
use binglib.Base.{ℕ, suc, ◌+◌, ◌≡◌, ap, String, List, [], ◌∷◌, map, length, arith}
use binglib.Base.Int.{pos}
use binglib.Base.Effect.{ok}
use binglib.Json.{JsonLibrary}
use binglib.Electrum.Requests.{electrum_request_to_json}
use binglib.Client.{Connection, RonghuaClient, send_request_no_response}
use binglib.Client.Bulk.{send_all}

abbrev pub client : ℕ → RonghuaClient
client c = record { id_counter = c }

-- The ids of the requests that follow the counter `c`.
abbrev pub ids_from : ℕ → List String → List ℕ
ids_from c [] = []
ids_from c (param ∷ params) = suc c ∷ ids_from (suc c) params

module _ {J W : Type 0} (json : JsonLibrary J) (connection : Connection J W) (method : String) where
  -- The request for a parameter.
  abbrev pub request_of : ℕ → String → J
  request_of id param =
      electrum_request_to_json json (record { method = method; id = pos id; params = param ∷ [] })

  -- The world after the requests for the parameters went out, with the ids behind `c`.
  abbrev pub after_sends : List String → ℕ → W → W
  after_sends [] c w = w
  after_sends (param ∷ params) c w =
      after_sends params (suc c) (connection.send_request (request_of (suc c) param) w).1

  -- Each of these requests is taken when its turn comes.
  abbrev pub AreTaken : List String → ℕ → W → Type 0
  AreTaken [] c w = Unit
  AreTaken (param ∷ params) c w =
      ((connection.send_request (request_of (suc c) param) w).0 ≡ ok tt)
      × AreTaken params (suc c) (connection.send_request (request_of (suc c) param) w).1

  pub send_all-after_sends :
      (params : List String) (c : ℕ) (w : W)
      → AreTaken params c w
      → send_all json connection method params (client c, w)
        ≡ (ok (map pos (ids_from c params)), (client (c + length params), after_sends params c w))
  unfolding send_all send_request_no_response
  send_all-after_sends [] c w taken = ap (λ k. (ok [], (client k, w))) (omega arith)
  send_all-after_sends (param ∷ params) c w taken =
      let w' = (connection.send_request (request_of (suc c) param) w).1 in
      rw (taken.0, send_all-after_sends params (suc c) w' taken.1)
        (ap
          (λ k. (
            ok (map pos (ids_from c (param ∷ params))),
            (client k, after_sends (param ∷ params) c w),
          ))
          (omega arith))

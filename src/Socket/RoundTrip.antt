-- ===== src/Socket/RoundTrip.antt =====
-- What is sent and what is received have one form.
use binglib.Base.{◌≡◌, refl, true, [], ◌∷◌}
use binglib.Base.Dict.{Dict}
use binglib.Base.Int.{IsInt}
use binglib.Json.{JsonLibrary, JsonLaws}
use binglib.Electrum.Requests.{ElectrumRequest, electrum_request_to_json}
use binglib.Socket.{from_json}

-- By the laws of JSON values, from_json reads a request with an id in the range of int, which
-- electrum_request_to_json wrote, back as it was:
-- its method, its id, which is there, and its parameters.
pub from_json-electrum_request_to_json :
    {J : Type 0} (json : JsonLibrary J) (laws : JsonLaws json) (r : ElectrumRequest)
    → IsInt r.id
    → from_json json (electrum_request_to_json json r) ≡ record {
      message = electrum_request_to_json json r;
      method = r.method;
      has_correlation_id = true;
      correlation_id = r.id;
      params = r.params;
    }
unfolding from_json
from_json-electrum_request_to_json {J} json laws r small =
    let fields : Dict J =
      ("jsonrpc", json.string "2.0")
      ∷ ("method", json.string r.method)
      ∷ ("id", json.number r.id)
      ∷ ("params", json.strings r.params)
      ∷ [] in
    rw
      (
        laws.at-object "id" fields (json.number r.id) refl,
        laws.at-object "method" fields (json.string r.method) refl,
        laws.at-object "params" fields (json.strings r.params) refl,
        laws.get_int-number r.id small,
        laws.get_string-string r.method,
        laws.get_strings-strings r.params,
      )
      refl

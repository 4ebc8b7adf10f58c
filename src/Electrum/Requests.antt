-- ===== src/Electrum/Requests.antt =====
-- The requests to an Electrum server, as JSON: src/electrumclient/electrum_model.cpp.
use binglib.Base.{String, List, [], ◌∷◌}
use binglib.Base.Int.{ℤ}
use binglib.Json.{JsonLibrary}

-- `id` is an int: where that matters, its range is IsInt (Base/Int).
pub record ElectrumRequest : Type 0 where
  pub method : String
  pub id : ℤ
  pub params : List String

pub record ElectrumVersionRequest : Type 0 where
  pub method : String
  pub id : ℤ
  pub param1 : String
  pub param2 : List String

module _ {J : Type 0} (json : JsonLibrary J) where
  abbrev pub electrum_request_to_json : ElectrumRequest → J
  electrum_request_to_json r = json.object (
      ("jsonrpc", json.string "2.0")
      ∷ ("method", json.string r.method)
      ∷ ("id", json.number r.id)
      ∷ ("params", json.strings r.params)
      ∷ [])

  -- the overload for an ElectrumVersionRequest
  abbrev pub version_request_to_json : ElectrumVersionRequest → J
  version_request_to_json r = json.object (
      ("jsonrpc", json.string "2.0")
      ∷ ("method", json.string r.method)
      ∷ ("id", json.number r.id)
      ∷ ("params", json.array (json.string r.param1 ∷ json.strings r.param2 ∷ []))
      ∷ [])

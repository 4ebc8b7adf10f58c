-- ===== src/Client/Race.antt =====
-- Two calls at once. A method increments id_counter for its request, and reads it again when it sends the
-- request and waits for the reply: two atomic steps, next_id and exchange, between which another thread
-- may take its own.
use binglib.Base.{ℕ, suc, ◌≡◌, ◌≢◌, ◌≤◌, String, List, [], Option, none, some}
use binglib.Base.Int.{ℤ, pos}
use binglib.Base.Effect.{ok}
use binglib.Json.{JsonLibrary}
use binglib.Electrum.Requests.{electrum_request_to_json}
use binglib.Client.{Connection, Reader, RonghuaClient, next_id, exchange, send_request}

-- Where a call of a request's method stands: its request has `id`, and it waits for `awaited`.
pub data Progress : Type 0 where
  idle : Progress
  numbered : ℕ → Progress
  waiting : ℕ → ℕ → Progress

pub record Calls : Type 0 where
  pub id_counter : ℕ
  pub first : Progress
  pub second : Progress

-- What a connection was asked last: the request that it sent, and the id that is waited for.
pub record Asked (J : Type 0) : Type 0 where
  pub sent : Option J
  pub awaited : Option ℤ

-- A connection that only takes down what it is asked.
abbrev pub recording : {J : Type 0} → JsonLibrary J → Connection J (Asked J)
recording json = record {
  send_request = λ request w. (ok tt, record { sent = some request; awaited = none });
  receive_response = λ id w. (ok json.null, record { sent = w.sent; awaited = some id });
  receive_response_bulk = λ ids w. (ok [], w);
  eat_response = λ id w. (ok tt, w);
}

module _ {J A : Type 0} (json : JsonLibrary J) (msg method : String) (params : List String)
    (read : Reader json A) where
  abbrev request_of : ℕ → J
  request_of id =
      electrum_request_to_json json (record { method = method; id = pos id; params = params })

  abbrev client : ℕ → RonghuaClient × Asked J
  client counter = (record { id_counter = counter }, record { sent = none; awaited = none })

  -- What one call does next, with the counter before and after: the parts of request_as.
  pub data Moves (counter : ℕ) : Progress → Progress → ℕ → Type 0 where
    increments :
        {id counter' : ℕ}
        → next_id (client counter) ≡ (ok id, client counter')
        → Moves counter idle (numbered id) counter'
    sends :
        {id awaited counter' : ℕ}
        → (exchange json (recording json) msg method params read id (client counter)).1 ≡ (
          record { id_counter = counter' },
          record { sent = some (request_of id); awaited = some (pos awaited) },
        )
        → Moves counter (numbered id) (waiting id awaited) counter'
    returns : {id awaited : ℕ} → Moves counter (waiting id awaited) idle counter

  pub data Step (s : Calls) : Calls → Type 0 where
    first_moves :
        {p : Progress} {n : ℕ}
        → Moves s.id_counter s.first p n
        → Step s (record { id_counter = n; first = p; second = s.second })
    second_moves :
        {p : Progress} {n : ℕ}
        → Moves s.id_counter s.second p n
        → Step s (record { id_counter = n; first = s.first; second = p })

  pub data Reach (s : Calls) : Calls → Type 0 where
    here : Reach s s
    next : {t u : Calls} → Reach s t → Step t u → Reach s u

abbrev pub start : ℕ → Calls
start c = record { id_counter = c; first = idle; second = idle }

-- Both calls wait for the reply to the second's request.
abbrev pub crossed : ℕ → Calls
crossed c = record {
  id_counter = suc (suc c);
  first = waiting (suc c) (suc (suc c));
  second = waiting (suc (suc c)) (suc (suc c));
}

-- A call's request has an id up to the counter, and the call waits for that id or a later one.
abbrev IsBelow : ℕ → Progress → Type 0
IsBelow counter idle = Unit
IsBelow counter (numbered id) = id ≤ counter
IsBelow counter (waiting id awaited) = (id ≤ awaited) × (awaited ≤ counter)

abbrev HasNoId : ℕ → Progress → Type 0
HasNoId id idle = Unit
HasNoId id (numbered other) = id ≢ other
HasNoId id (waiting other awaited) = id ≢ other

-- The requests of two calls that have both made one have different ids.
abbrev AreApart : Progress → Progress → Type 0
AreApart idle q = Unit
AreApart (numbered id) q = HasNoId id q
AreApart (waiting id awaited) q = HasNoId id q

abbrev pub AreOrdered : Calls → Type 0
AreOrdered s =
    IsBelow s.id_counter s.first × IsBelow s.id_counter s.second × AreApart s.first s.second

abbrev awaited_of : Option ℤ → ℕ
awaited_of none = 0
awaited_of (some (pos n)) = n
awaited_of (some n) = 0

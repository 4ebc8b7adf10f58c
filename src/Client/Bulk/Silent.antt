-- ===== src/Client/Bulk/Silent.antt =====
-- What the loops do when the server does not answer in time.
use binglib.Base.{
  true, ℕ, zero, suc, ◌+◌, ◌*◌, ◌≡◌, ap, String, List, [], ◌∷◌, map, length, take, ltb, lt→ltb,
  arith, ◌∙◌,
}
use binglib.Base.Int.{pos}
use binglib.Base.Effect.{Result, ok, err, blocked}
use binglib.Json.{JsonLibrary}
use binglib.Client.{Connection, Reader}
use binglib.Client.Bulk.{read_all, do_bulk, bulk_loop}
use binglib.Client.Bulk.Sends.{client, ids_from, after_sends, AreTaken, send_all-after_sends}

module _ {J W A : Type 0} (json : JsonLibrary J) (connection : Connection J W) (method : String)
    (read : Reader json A) (chunk : List String) where
  -- What the bulk wait of a round returns and leaves, after the requests for the chunk went out.
  abbrev waited : ℕ → W → Result (List J) × W
  waited c w =
      connection.receive_response_bulk (map pos (ids_from c chunk))
        (after_sends json connection method chunk c w)

  -- The world after some rounds, each of which sends the requests for the same chunk, with new ids.
  abbrev pub after_rounds : ℕ → ℕ → W → W
  after_rounds zero c w = w
  after_rounds (suc fuel) c w = after_rounds fuel (c + length chunk) (waited c w).1

  -- In each of the rounds the requests are taken and the wait ends with no answer.
  abbrev pub AreSilent : ℕ → ℕ → W → Type 0
  AreSilent zero c w = Unit
  AreSilent (suc fuel) c w =
      AreTaken json connection method chunk c w
      × ((waited c w).0 ≡ ok [])
      × AreSilent fuel (c + length chunk) (waited c w).1

module _ {J W A : Type 0} (json : JsonLibrary J) (connection : Connection J W) (method : String)
    (read : Reader json A) where
  -- If in each of a number of rounds the requests for the first chunk are taken, but no answer comes in
  -- time, then the loop does not end within that number of rounds: in each it has sent the requests for
  -- that chunk once again, with new ids.
  pub bulk_loop-silent :
      (chunk_factor fuel : ℕ) (param : String) (params : List String) (c : ℕ) (w : W)
      → AreSilent json connection method read (take chunk_factor (param ∷ params)) fuel c w
      → bulk_loop json connection method read chunk_factor fuel (param ∷ params) [] (client c, w)
        ≡ (
          err blocked,
          (
            client (c + fuel * length (take chunk_factor (param ∷ params))),
            after_rounds json connection method read (take chunk_factor (param ∷ params)) fuel c w,
          ),
        )
  unfolding bulk_loop do_bulk read_all
  bulk_loop-silent chunk_factor zero param params c w silent =
      ap (λ k. (err blocked, (client k, w))) (omega arith)
  bulk_loop-silent chunk_factor (suc fuel) param params c w (taken, no_answer, later) =
      let chunk = take chunk_factor (param ∷ params) in
      let w' = (waited json connection method read chunk c w).1 in
      let next = bulk_loop-silent chunk_factor fuel param params (c + length chunk) w' later in
      let more : ltb 0 (length (param ∷ params)) ≡ true = lt→ltb _ _ (omega arith) in
      rw (more, send_all-after_sends json connection method chunk c w taken, no_answer)
        (next
          ∙ ap
              (λ k. (
                err blocked,
                (
                  client k,
                  after_rounds json connection method read chunk fuel (c + length chunk) w',
                ),
              ))
              (grind arith))

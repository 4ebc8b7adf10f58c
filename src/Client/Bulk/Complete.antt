-- ===== src/Client/Bulk/Complete.antt =====
-- What the loops return from a server that answers.
use mathlib.Core.List.{append-nil, append_assoc, map-append}
use binglib.Base.{
  ℕ, zero, suc, ◌+◌, ◌≡◌, ◌<◌, refl, sym, ap, ◌∙◌, String, List, [], ◌∷◌, ◌++◌, map, length, take,
  drop, ltb, lt→ltb, ge→ltb, arith, true, false, length-map, length-append,
}
use binglib.Base.Int.{pos}
use binglib.Base.Effect.{Result, ok}
use binglib.Json.{JsonLibrary}
use binglib.Client.{Connection, Reader, answered}
use binglib.Client.Bulk.Sends.{client, ids_from, after_sends, AreTaken, send_all-after_sends}
use binglib.Client.Bulk.{read_all, do_bulk, bulk_loop}

drop-append {ℓ} : {A : Type ℓ} (xs ys : List A) → drop (length xs) (xs ++ ys) ≡ ys
drop-append [] ys = refl
drop-append (x ∷ xs) ys = drop-append xs ys

-- A run from the front of a run from the front is not empty.
length-take-take {ℓ} :
    {A : Type ℓ} (m n : ℕ) (x : A) (xs : List A)
    → 0 < m
    → 0 < n
    → 0 < length (take m (take n (x ∷ xs)))
length-take-take zero n x xs hm hn = elim hm [ ]
length-take-take (suc m) zero x xs hm hn = elim hn [ ]
length-take-take (suc m) (suc n) x xs hm hn = omega arith

module _ {J W A : Type 0} (json : JsonLibrary J) (connection : Connection J W) (method : String)
    (read : Reader json A) (answer : ℕ → String → J) (value : String → A)
    (reads : (id : ℕ) (param : String)
      → answered json method read (ok (answer id param)) ≡ ok (value param))
    (chunk_factor : ℕ) where
  abbrev chunk_of : List String → List String
  chunk_of params = take chunk_factor params

  -- The answers to the parameters, under the ids behind `c`.
  abbrev replies_from : ℕ → List String → List J
  replies_from c [] = []
  replies_from c (param ∷ params) = answer (suc c) param ∷ replies_from (suc c) params

  -- What the bulk wait of a round returns and leaves, after the requests for the chunk went out.
  abbrev waited : List String → ℕ → W → Result (List J) × W
  waited params c w =
      connection.receive_response_bulk (map pos (ids_from c (chunk_of params)))
        (after_sends json connection method (chunk_of params) c w)

  -- How the server answers along one run of the loop, with these parameters still without an answer: in each
  -- round the requests for the first chunk of them are taken, and the wait gets the answers to some of
  -- the chunk from its front on, one at least.
  pub data Rounds : List String → ℕ → W → Type 0 where
    over : {c : ℕ} {w : W} → Rounds [] c w
    round :
        {param : String} {params rest : List String} {c : ℕ} {w : W} (n : ℕ)
        → 0 < n
        → AreTaken json connection method (chunk_of (param ∷ params)) c w
        → (waited (param ∷ params) c w).0 ≡ ok (replies_from c (take n (chunk_of (param ∷ params))))
        → param ∷ params ≡ take n (chunk_of (param ∷ params)) ++ rest
        → Rounds rest (c + length (chunk_of (param ∷ params))) (waited (param ∷ params) c w).1
        → Rounds (param ∷ params) c w

  read_all-answers :
      (c : ℕ) (params : List String) (found : List A)
      → read_all json method read (replies_from c params) found ≡ ok (found ++ map value params)
  unfolding read_all
  read_all-answers c [] found = ap ok (sym (append-nil found))
  read_all-answers c (param ∷ params) found = rw (reads (suc c) param) (
      read_all-answers (suc c) params (found ++ value param ∷ [])
      ∙ ap ok (append_assoc found (value param ∷ []) (map value params)))

  bulk_loop-from :
      (fuel : ℕ) (before rest params : List String) (c : ℕ) (w : W)
      → 0 < chunk_factor
      → params ≡ before ++ rest
      → length rest < fuel
      → Rounds rest c w
      → (bulk_loop json connection method read chunk_factor fuel params
          (map value before)
          (client c, w)).0
        ≡ ok (map value params)
  unfolding bulk_loop do_bulk
  bulk_loop-from zero before rest params c w hc split enough rounds = elim enough [ ]
  bulk_loop-from (suc fuel) before [] params c w hc split enough rounds =
      let same : params ≡ before = split ∙ append-nil before in
      let size : length (map value before) ≡ length params =
        length-map value before ∙ ap length (sym same) in
      let done : ltb (length (map value before)) (length params) ≡ false =
        ge→ltb _ _ (omega arith) in
      rw done (rw same refl)
  bulk_loop-from (suc fuel) before (p ∷ ps) params c w hc split enough
        (round {rest = rest} n some_answer taken replies split' later) =
      let more : ltb (length (map value before)) (length params) ≡ true =
        lt→ltb _ _ (
          omega (arith, length-map value before, length-append before (p ∷ ps), ap length split)) in
      let left : drop (length (map value before)) params ≡ p ∷ ps =
        rw (length-map value before, split) (drop-append before (p ∷ ps)) in
      let chunk = chunk_of (p ∷ ps) in
      let answers = take n chunk in
      let again : params ≡ (before ++ answers) ++ rest =
        split ∙ ap (◌++◌ before) split' ∙ sym (append_assoc before answers rest) in
      let next =
        bulk_loop-from fuel (before ++ answers) rest params (c + length chunk)
          (waited (p ∷ ps) c w).1 hc again
          (omega (
            arith,
            ap length split',
            length-append answers rest,
            length-take-take n chunk_factor p ps some_answer hc,
          ))
          later in
      rw
        (
          more,
          left,
          send_all-after_sends json connection method chunk c w taken,
          replies,
          read_all-answers c answers (map value before),
          ← map-append value before answers,
        )
        next

  -- If in each round of the loop the requests for the first chunk of the parameters without an answer are
  -- taken, and the wait gets the answers to some of the chunk from its front on, one at least, and these
  -- can be read, then for a chunk factor above 0 as many rounds as there are parameters, and one, are
  -- enough for the loop, and it returns what the answers say, one for each parameter and in their
  -- order, however the waits cut them.
  pub bulk_loop_complete :
      (fuel : ℕ) (params : List String) (c : ℕ) (w : W)
      → 0 < chunk_factor
      → length params < fuel
      → Rounds params c w
      → (bulk_loop json connection method read chunk_factor fuel params [] (client c, w)).0
        ≡ ok (map value params)
  bulk_loop_complete fuel params c w hc enough rounds =
      bulk_loop-from fuel [] params params c w hc refl enough rounds

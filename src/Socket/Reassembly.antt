-- ===== src/Socket/Reassembly.antt =====
-- How responses are put together from what the socket reads.
use mathlib.Core.List.{append-nil, append_assoc}
use binglib.Base.{
  ◌≡◌, refl, sym, ap, ◌∙◌, true, false, none, some, List, [], ◌∷◌, ◌++◌, map, null, All,
}
use binglib.Bitcoin.{Bytes}
use binglib.Json.{JsonLibrary}
use binglib.InputQueue.{ElectrumMessage, push}
use binglib.InputQueue.Reply.{push_all}
use binglib.Socket.{SocketClient, ReadEvent, ElectrumErrorCallback, from_json, do_read, do_reads}

abbrev pub read : Bytes → ReadEvent
read bytes = record { error = none; bytes = bytes }

abbrev pub joined : List Bytes → Bytes
joined [] = []
joined (chunk ∷ chunks) = chunk ++ joined chunks

-- A response, and the reads in which it comes.
pub record Response (J : Type 0) : Type 0 where
  pub text : Bytes
  pub value : J
  pub chunks : List Bytes

module _ {J : Type 0} (json : JsonLibrary J) where
  -- After `front` none of these reads but the last makes the text JSON.
  abbrev pub AreParts : Bytes → List Bytes → Type 0
  AreParts front [] = Unit
  AreParts front (chunk ∷ []) = Unit
  AreParts front (chunk ∷ next ∷ chunks) =
      (json.parse (front ++ chunk) ≡ none) × AreParts (front ++ chunk) (next ∷ chunks)

  -- The text of a response is JSON, with the reads it comes in, none of them empty, and only the last makes
  -- it JSON. A line's end that comes later on its own is the beginning of the next response.
  pub record IsCut (response : Response J) : Type 0 where
    pub whole : joined response.chunks ≡ response.text
    pub parses : json.parse response.text ≡ some response.value
    pub parts : AreParts [] response.chunks
    pub some_chunk : null response.chunks ≡ false
    pub nonempty : All (λ chunk. null chunk ≡ false) response.chunks

-- The reads of some responses, one after another.
abbrev pub reads_of : {J : Type 0} → List (Response J) → List ReadEvent
reads_of [] = []
reads_of (response ∷ responses) = map read response.chunks ++ reads_of responses

module _ {J W : Type 0} (json : JsonLibrary J) where
  -- A client that reads, with some text left over.
  abbrev pub listening :
      List (ElectrumMessage J) → Bytes → List (ElectrumErrorCallback W) → SocketClient J W
  listening queue oss callbacks = record {
    queue = queue;
    oss = oss;
    reading = true;
    interrupt_requested = false;
    electrum_error_callbacks = callbacks;
  }

  module _ (callbacks : List (ElectrumErrorCallback W)) (w : W) where
    pub do_read-part :
        (queue : List (ElectrumMessage J)) (oss bytes : Bytes)
        → null bytes ≡ false
        → json.parse (oss ++ bytes) ≡ none
        → do_read json (read bytes) (listening queue oss callbacks, w)
          ≡ (listening queue (oss ++ bytes) callbacks, w)
    unfolding do_read
    do_read-part queue oss bytes some_bytes part = rw (some_bytes, part) refl

    do_read-whole :
        (queue : List (ElectrumMessage J)) (oss bytes : Bytes) (value : J)
        → null bytes ≡ false
        → json.parse (oss ++ bytes) ≡ some value
        → do_read json (read bytes) (listening queue oss callbacks, w)
          ≡ (listening (push (from_json json value) queue) [] callbacks, w)
    unfolding do_read
    do_read-whole queue oss bytes value some_bytes whole = rw (some_bytes, whole) refl

    -- From `front` on, which is what was read of the response so far.
    do_reads-Response :
        (queue : List (ElectrumMessage J)) (front chunk : Bytes) (chunks : List Bytes)
        (text : Bytes) (value : J) (events : List ReadEvent)
        → text ≡ front ++ joined (chunk ∷ chunks)
        → json.parse text ≡ some value
        → AreParts json front (chunk ∷ chunks)
        → All (λ c. null c ≡ false) (chunk ∷ chunks)
        → do_reads json (map read (chunk ∷ chunks) ++ events) (listening queue front callbacks, w)
          ≡ do_reads json events (listening (push (from_json json value) queue) [] callbacks, w)
    unfolding do_reads
    do_reads-Response queue front chunk [] text value events split parses parts nonempty =
        let whole : json.parse (front ++ chunk) ≡ some value =
          ap json.parse (sym (split ∙ ap (◌++◌ front) (append-nil chunk))) ∙ parses in
        ap (do_reads json events) (do_read-whole queue front chunk value nonempty.0 whole)
    do_reads-Response queue front chunk (c ∷ chunks) text value events split parses parts nonempty =
        let split' : text ≡ (front ++ chunk) ++ joined (c ∷ chunks) =
          split ∙ sym (append_assoc front chunk (joined (c ∷ chunks))) in
        ap (do_reads json (map read (c ∷ chunks) ++ events))
          (do_read-part queue front chunk nonempty.0 parts.0)
        ∙ do_reads-Response queue (front ++ chunk) c chunks text value events split' parses parts.1
            nonempty.1

    do_reads-cut :
        (queue : List (ElectrumMessage J)) (text : Bytes) (value : J) (chunks : List Bytes)
        (events : List ReadEvent)
        → IsCut json (record { text = text; value = value; chunks = chunks })
        → do_reads json (map read chunks ++ events) (listening queue [] callbacks, w)
          ≡ do_reads json events (listening (push (from_json json value) queue) [] callbacks, w)
    do_reads-cut queue text value [] events cut = let none_read = cut.some_chunk in cc
    do_reads-cut queue text value (chunk ∷ chunks) events cut =
        do_reads-Response queue [] chunk chunks text value events (sym cut.whole) cut.parses
          cut.parts cut.nonempty

    -- However the server's responses are cut into reads, as long as no read holds parts of two, no read is
    -- empty, and the text of a response is JSON at its last read and not before, a client that reads and
    -- has nothing left over pushes the message of each response, in their order, and has nothing
    -- left over afterwards.
    pub do_reads-reads_of :
        (queue : List (ElectrumMessage J)) (responses : List (Response J))
        → All (IsCut json) responses
        → do_reads json (reads_of responses) (listening queue [] callbacks, w) ≡ (
          listening (push_all (map (λ r. from_json json r.value) responses) queue) [] callbacks,
          w,
        )
    unfolding do_reads
    do_reads-reads_of queue [] cuts = refl
    do_reads-reads_of queue (r ∷ responses) cuts =
        do_reads-cut queue r.text r.value r.chunks (reads_of responses) cuts.0
        ∙ do_reads-reads_of (push (from_json json r.value) queue) responses cuts.1

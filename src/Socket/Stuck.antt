-- ===== src/Socket/Stuck.antt =====
-- What happens when one read brings more than a response.
use mathlib.Core.List.{append_assoc, append-nil}
use binglib.Base.{
  ◌≡◌, refl, sym, subst, Option, ap, ◌∙◌, inl, inr, false, none, some, List, [], ◌∷◌, ◌++◌, null,
  Bool-cases,
}
use binglib.Bitcoin.{Bytes}
use binglib.Json.{JsonLibrary}
use binglib.InputQueue.{ElectrumMessage}
use binglib.Socket.{
  SocketClient, ReadEvent, ElectrumErrorCallback, push_error, async_read, receive, do_read,
  do_reads, report, ElectrumErrorEvent,
}
use binglib.Socket.Reassembly.{read, listening, do_read-part}

-- No text that begins with these bytes is JSON.
abbrev pub IsDead : {J : Type 0} → JsonLibrary J → Bytes → Type 0
IsDead json bytes = (more : Bytes) → json.parse (bytes ++ more) ≡ none

module _ {J W : Type 0} (json : JsonLibrary J) where
  receive-IsDead :
      (bytes : Bytes) (s : SocketClient J W)
      → IsDead json s.oss
      → ((receive json bytes s).queue ≡ s.queue) × IsDead json (receive json bytes s).oss
  unfolding receive
  receive-IsDead bytes s dead = elim (Bool-cases (null bytes)) [
    | inl empty ↦ rw empty (refl, dead)
    | inr some_bytes ↦
        rw (some_bytes, dead bytes)
          (refl, λ more. ap json.parse (append_assoc s.oss bytes more) ∙ dead (bytes ++ more))
  ]

  async_read-keeps :
      (s : SocketClient J W) → ((async_read s).queue ≡ s.queue) × ((async_read s).oss ≡ s.oss)
  unfolding async_read
  async_read-keeps s = elim (Bool-cases s.interrupt_requested) [
    | inl e ↦ rw e (refl, refl)
    | inr e ↦ rw e (refl, refl)
  ]

  report-keeps :
      (error : Option ElectrumErrorEvent) (s : SocketClient J W) (w : W)
      → ((report json error (s, w)).0.queue ≡ s.queue) × ((report json error (s, w)).0.oss ≡ s.oss)
  unfolding push_error
  report-keeps none s w = (refl, refl)
  report-keeps (some event) s w = (refl, refl)

  do_read-IsDead :
      (event : ReadEvent) (s : SocketClient J W) (w : W)
      → IsDead json s.oss
      → ((do_read json event (s, w)).0.queue ≡ s.queue)
        × IsDead json (do_read json event (s, w)).0.oss
  unfolding do_read push_error
  do_read-IsDead event s w dead =
      let s' = (report json event.error (record s { reading = false }, w)).0 in
      let same = report-keeps event.error (record s { reading = false }) w in
      let read_bytes = receive-IsDead event.bytes s' (subst (IsDead json) (sym same.1) dead) in
      let kept = async_read-keeps (receive json event.bytes s') in
      (kept.0 ∙ read_bytes.0 ∙ same.0, subst (IsDead json) (sym kept.1) read_bytes.1)

  do_reads-IsDead :
      (events : List ReadEvent) (s : SocketClient J W) (w : W)
      → IsDead json s.oss
      → (do_reads json events (s, w)).0.queue ≡ s.queue
  unfolding do_reads
  do_reads-IsDead [] s w dead = refl
  do_reads-IsDead (event ∷ events) s w dead = elim (Bool-cases s.reading) [
    | inl on ↦
        let next = do_read-IsDead event s w dead in
        simp on (
          do_reads-IsDead events (do_read json event (s, w)).0 (do_read json event (s, w)).1 next.1
          ∙ next.0)
    | inr off ↦ rw off refl
  ]

  -- If a read brings two responses at once, so that no JSON text begins with what was read, then
  -- neither of them becomes a message, and nor does anything that the server sends afterwards,
  -- whatever the later reads are.
  pub do_reads-stuck :
      (queue : List (ElectrumMessage J)) (callbacks : List (ElectrumErrorCallback W)) (w : W)
      (text text' : Bytes) (events : List ReadEvent)
      → IsDead json (text ++ text')
      → (do_reads json
          (read (text ++ text') ∷ events)
          (listening json queue [] callbacks, w)).0.queue
        ≡ queue
  unfolding do_reads do_read push_error async_read receive
  do_reads-stuck queue callbacks w text text' events dead = first_read (text ++ text') dead
    where
      first_read :
          (bytes : Bytes)
          → IsDead json bytes
          → (do_reads json (read bytes ∷ events) (listening json queue [] callbacks, w)).0.queue
            ≡ queue
      first_read [] none_parses =
          do_reads-IsDead events (listening json queue [] callbacks) w none_parses
      first_read (b ∷ bytes) none_parses =
          let part = ap json.parse (sym (append-nil (b ∷ bytes))) ∙ none_parses [] in
          ap (λ s. (do_reads json events s).0.queue)
            (do_read-part json callbacks w queue [] (b ∷ bytes) refl part)
          ∙ do_reads-IsDead events (listening json queue (b ∷ bytes) callbacks) w none_parses

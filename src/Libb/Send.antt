-- ===== src/Libb/Send.antt =====
-- When a transaction counts as sent.
use binglib.Base.{◌≡◌, ◌⊎◌, ◌↔◌, String, refl, inl, inr, none, some, Option-cases, Option}
use binglib.Base.Effect.{Exception, invalid_argument, Result, ok, err, bind_result}
use binglib.Bitcoin.{Bytes, Libbitcoin, Transaction}
use binglib.Libb.{ObeliskClient, Reply, failed, replied, silent, sent, send_tx}

module _ {W : Type 0} (lib : Libbitcoin) (client : ObeliskClient W) where
  -- The server takes the transaction for good, or does not answer.
  abbrev pub IsTaken : Transaction → W → Type 0
  IsTaken tx w =
      ((client.transaction_pool_broadcast tx w).0 ≡ ok (replied none))
      ⊎ ((client.transaction_pool_broadcast tx w).0 ≡ ok silent)

  sent-ok_iff :
      (r : Result (Reply (Option String))) (w : W)
      → ((bind_result r w (sent client)).0 ≡ ok tt) ↔ ((r ≡ ok (replied none)) ⊎ (r ≡ ok silent))
  sent-ok_iff (err x) w = (λ e. cc, λ e. elim e [ inl f ↦ cc | inr f ↦ cc ])
  sent-ok_iff (ok (failed m)) w = (λ e. cc, λ e. elim e [ inl f ↦ cc | inr f ↦ cc ])
  sent-ok_iff (ok (replied none)) w = (λ e. inl refl, λ e. refl)
  sent-ok_iff (ok (replied (some m))) w = (λ e. cc, λ e. elim e [ inl f ↦ cc | inr f ↦ cc ])
  sent-ok_iff (ok silent) w = (λ e. inr refl, λ e. refl)

  -- send_tx goes through exactly if the text is the hex text of a transaction and the server,
  -- asked to broadcast that transaction, takes it for good or does not answer before the wait
  -- ends; a text that is not one of a transaction is refused before the server is asked.
  pub send_tx_cases :
      (tx_hex : String) (w : W)
      → ((tx : Transaction) × (chunk : Bytes) × (lib.decode_base16 tx_hex ≡ some chunk)
          × (lib.tx_from_data chunk ≡ some tx)
          × (((send_tx client lib tx_hex w).0 ≡ ok tt) ↔ IsTaken tx w))
        ⊎ (((lib.decode_base16 tx_hex ≡ none)
              ⊎ ((chunk : Bytes) × (lib.decode_base16 tx_hex ≡ some chunk)
                  × (lib.tx_from_data chunk ≡ none)))
            × ((send_tx client lib tx_hex w).1 ≡ w)
            × ((x : Exception) × ((send_tx client lib tx_hex w).0 ≡ err x)))
  unfolding send_tx
  send_tx_cases tx_hex w = elim (Option-cases (lib.decode_base16 tx_hex)) [
    | inl e ↦
        inr
          (inl e, rw e refl, (invalid_argument "could not decode transaction from hex", rw e refl))
    | inr (chunk, e) ↦ elim (Option-cases (lib.tx_from_data chunk)) [
      | inl f ↦ inr (
        inr (chunk, e, f),
        rw (e, f) refl,
        (invalid_argument "could not decode transaction", rw (e, f) refl),
      )
      | inr (tx, f) ↦ inl (
        tx,
        chunk,
        e,
        f,
        rw (e, f)
            (sent-ok_iff (client.transaction_pool_broadcast tx w).0
              (client.transaction_pool_broadcast tx w).1),
      )
    ]
  ]

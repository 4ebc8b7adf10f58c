-- ===== src/Libb/Tests.antt =====
-- A transaction that is sent to a concrete server.
use binglib.Base.{◌≡◌, ◌⊎◌, ◌↔◌, none, some}
use binglib.Base.Effect.{Exception, ok, err}
use binglib.Bitcoin.{Bytes, Transaction}
use binglib.Sample.{sample_lib, obelisk}
use binglib.Libb.{send_tx}
use binglib.Libb.Send.{IsTaken, send_tx_cases}

send_tx_cases_example :
    ((tx : Transaction) × (chunk : Bytes) × (sample_lib.decode_base16 "12" ≡ some chunk)
      × (sample_lib.tx_from_data chunk ≡ some tx)
      × (((send_tx obelisk sample_lib "12" 0).0 ≡ ok tt) ↔ IsTaken sample_lib obelisk tx 0))
    ⊎ (((sample_lib.decode_base16 "12" ≡ none)
          ⊎ ((chunk : Bytes) × (sample_lib.decode_base16 "12" ≡ some chunk)
              × (sample_lib.tx_from_data chunk ≡ none)))
        × ((send_tx obelisk sample_lib "12" 0).1 ≡ 0)
        × ((x : Exception) × ((send_tx obelisk sample_lib "12" 0).0 ≡ err x)))
send_tx_cases_example = send_tx_cases sample_lib obelisk "12" 0

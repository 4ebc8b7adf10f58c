-- ===== src/Purse/Tests.antt =====
-- The searches and the scans at concrete servers.
use binglib.Base.{
  ◌<◌, ℕ, All, [], arith, ◌≤◌, true, here, String, ◌≡◌, refl, List, [], ◌∷◌, ◌++◌, reverse,
}
use binglib.Base.Effect.{ok}
use binglib.Converter.{base58_to_spkh_hex}
use binglib.Funds.{point_of}
use binglib.Bitcoin.{PointValue}
use binglib.Sample.{
  worth, individual_obelisk, sample_lib, server, three_points, point, one_item, payload, key,
}
use binglib.Purse.{AddressFunds, find_history, look_for_funds}
use binglib.Funds.Points.{total_value}
use binglib.Purse.Refused.{IsRefused, look_for_funds-IsRefused}
use binglib.Purse.Pays.{IsSound, IsPaid, look_for_funds-construct}
use binglib.Purse.Outputs.{find_history-items, all_items}

abbrev two_addresses : List String
two_addresses = "src" ∷ "dst" ∷ []

abbrev sample_funds : String → AddressFunds
sample_funds a = record {
  address = a;
  requested_funds = 20;
  actual_funds = 30;
  points = point_of (point 0 0) ∷ point_of (point 1 30) ∷ [];
}

abbrev sample_spkh : String
sample_spkh =
    sample_lib.encode_base16 (reverse (0x76 ∷ 0xa9 ∷ 0x14 ∷ (payload ++ 0x88 ∷ 0xac ∷ [])))

-- What individual_obelisk lists.
abbrev listed_points : String → ℕ → List PointValue
listed_points a satoshis = worth satoshis three_points

worth_falls :
    (satoshis : ℕ) (ps : List PointValue)
    → 0 < satoshis
    → total_value (worth satoshis ps) ≤ total_value (worth 1 ps)
worth_falls satoshis [] positive = omega arith
worth_falls satoshis (p ∷ ps) positive = ground (arith, worth_falls satoshis ps positive)

listed-IsSound :
    (a : String)
    → (sample_lib.payment_address_of a).is_valid ≡ true
    → IsSound sample_lib individual_obelisk listed_points a
listed-IsSound a valid = record {
  valid = valid;
  listed = λ satoshis w. refl;
  sums = λ satoshis. refl;
  fits = omega arith;
  fewer = λ satoshis positive. worth_falls satoshis three_points positive;
}

look_for_funds-construct_example :
    (r : AddressFunds) × ((look_for_funds sample_lib individual_obelisk 35 two_addresses 0).0
      ≡ ok r)
    × (35 ≤ r.actual_funds)
    × IsPaid sample_lib individual_obelisk listed_points key 30 5 "dst" 3 r
look_for_funds-construct_example =
    look_for_funds-construct sample_lib individual_obelisk listed_points key 30 5 "dst"
      two_addresses 0 3 (listed-IsSound "src" refl, (listed-IsSound "dst" refl, tt)) refl
      (omega arith) (omega arith) (here (omega arith))

look_for_funds-IsRefused_example :
    (r : AddressFunds) × ((look_for_funds sample_lib individual_obelisk 95 two_addresses 0).0
      ≡ ok r)
    × (r.points ≡ [])
    × All (λ a. total_value (listed_points a 95) ≤ r.actual_funds) two_addresses
    × All (IsRefused sample_lib individual_obelisk listed_points key 90 5 "dst" 4) two_addresses
look_for_funds-IsRefused_example =
    look_for_funds-IsRefused sample_lib individual_obelisk listed_points key 90 5 "dst"
      two_addresses 0 4 (omega arith) (omega arith)
      ((listed-IsSound "src" refl, omega arith), ((listed-IsSound "dst" refl, omega arith), tt))

find_history-items_example :
    ((find_history sample_lib server two_addresses ([], 0)).0 ≡ ok tt)
    × ((find_history sample_lib server two_addresses ([], 0)).1.0
        ≡ all_items sample_lib server (λ a. sample_spkh) (λ k. one_item) (λ t. "12") two_addresses)
unfolding base58_to_spkh_hex
find_history-items_example =
    find_history-items sample_lib server (λ a. sample_spkh) (λ k. one_item) (λ t. "12")
      (record { histories = λ k w. refl; txs = λ t w nonempty. refl }) two_addresses [] 0
      ((refl, (refl, tt)), ((refl, (refl, tt)), tt))

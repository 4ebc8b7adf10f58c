-- ===== src/Tx/Tests.antt =====
-- The signing loop on two inputs.
use binglib.Base.{◌≡◌, refl, List, [], ◌∷◌}
use binglib.Bitcoin.{OutputPoint, Output}
use binglib.Sample.{sample_lib, key, point}
use binglib.Funds.{point_of}
use binglib.Tx.{unsigned_tx, sign_inputs}
use binglib.Tx.Signing.{signed_inputs, blank, sign_inputs-signed_inputs}

abbrev two_points : List OutputPoint
two_points = point_of (point 0 0) ∷ point_of (point 1 30) ∷ []

abbrev one_output : List Output
one_output = record { value = 5; script = [] } ∷ []

sign_inputs-signed_inputs_example :
    ((sign_inputs sample_lib key two_points (unsigned_tx two_points one_output)).inputs
      ≡ signed_inputs sample_lib key
          (sign_inputs sample_lib key two_points (unsigned_tx two_points one_output))
          0
          two_points)
    × (blank (sign_inputs sample_lib key two_points (unsigned_tx two_points one_output))
        ≡ unsigned_tx two_points one_output)
sign_inputs-signed_inputs_example =
    sign_inputs-signed_inputs sample_lib key (λ secret script tx i. refl) two_points one_output

-- ===== src/InputQueue/Tests.antt =====
-- The replies to two requests and two notifications.
use mathlib.Core.List.{Perm}
use binglib.Base.{ℕ, String, ◌≡◌, refl, ◌⊎◌, true, false, none, some, List, [], ◌∷◌, All}
use binglib.Base.Int.{pos}
use binglib.InputQueue.{ElectrumMessage, matches, push, extract, contains_msg_with_id, pop_reply}
use binglib.InputQueue.Reply.{
  IsNewest, pop_reply_cases, push_all, drain_notifications, drain-push_all,
}
use binglib.InputQueue.Threads.{none_yet, then_step, arrival, reply, Steps-Perm}

abbrev response : ℕ → ElectrumMessage String
response n = record {
  message = "{}";
  method = "";
  has_correlation_id = true;
  correlation_id = pos n;
  params = [];
}

abbrev notification : String → ElectrumMessage String
notification spkh = record {
  message = "{}";
  method = "blockchain.scripthash.subscribe";
  has_correlation_id = false;
  correlation_id = pos 0;
  params = spkh ∷ [];
}

abbrev mixed : List (ElectrumMessage String)
mixed = response 2 ∷ notification "a" ∷ response 1 ∷ []

pop_reply_cases_example :
    (All (λ n. matches (pos 1) n ≡ false) mixed × (pop_reply (pos 1) mixed ≡ none))
    ⊎ ((m : ElectrumMessage String) × (rest : List (ElectrumMessage String)) × IsNewest
          (pos 1)
          mixed
          rest
          m
        × (pop_reply (pos 1) mixed ≡ some (m, rest)))
pop_reply_cases_example = pop_reply_cases (pos 1) mixed

pop_reply_run : pop_reply (pos 1) mixed ≡ some (response 1, response 2 ∷ notification "a" ∷ [])
unfolding pop_reply contains_msg_with_id extract
pop_reply_run = refl

drain-push_all_example :
    drain_notifications 2 (push_all (notification "a" ∷ notification "b" ∷ []) mixed)
    ≡ (notification "b" ∷ notification "a" ∷ [], mixed)
drain-push_all_example =
    drain-push_all (notification "a" ∷ notification "b" ∷ []) mixed (refl, (refl, tt))

Steps-Perm_example : Perm (response 1 ∷ response 2 ∷ []) (response 1 ∷ response 2 ∷ [])
unfolding pop_reply contains_msg_with_id extract push
Steps-Perm_example = Steps-Perm {before = response 2 ∷ []} (
    then_step (then_step none_yet (arrival (response 1) refl refl refl))
      (reply (pos 1) (response 1) refl refl refl))

-- ===== src/Queue/Order.antt =====
-- The queue as a sequence, oldest first.
use mathlib.Core.List.{reverse-cons, append_assoc, append-nil}
use binglib.Base.{
  ◌≡◌, refl, sym, ap, ◌∙◌, ◌⊎◌, ◌↔◌, inl, inr, none, some, List, [], ◌∷◌, ◌++◌, reverse, arith,
}
use binglib.Queue.{BlockingQueue, empty, push, split_back, pop}

module _ {ℓ} {A : Type ℓ} where
  unfoldable pub to_list : BlockingQueue A → List A
  to_list q = reverse q.queue

  to_list-push : (a : A) (q : BlockingQueue A) → to_list (push a q) ≡ to_list q ++ a ∷ []
  unfolding to_list push
  to_list-push a q = reverse-cons a q.queue

  split_back-reverse :
      (x : A) (xs : List A) → reverse (x ∷ xs) ≡ (split_back x xs).0 ∷ reverse (split_back x xs).1
  unfolding split_back
  split_back-reverse x [] = refl
  split_back-reverse x (y ∷ ys) =
      rw (reverse-cons x (y ∷ ys), split_back-reverse y ys)
        (ap (◌∷◌ (split_back y ys).0) (sym (reverse-cons x (split_back y ys).1)))

  pop_cases :
      (q : BlockingQueue A)
      → ((to_list q ≡ []) × (pop q ≡ none))
        ⊎ ((a : A) × (q' : BlockingQueue A) × (to_list q ≡ a ∷ to_list q') × (pop q ≡ some (a, q')))
  unfolding pop to_list
  pop_cases q = go q.queue refl
    where
      go :
          (xs : List A)
          → q.queue ≡ xs
          → ((to_list q ≡ []) × (pop q ≡ none))
            ⊎ ((a : A) × (q' : BlockingQueue A) × (to_list q ≡ a ∷ to_list q')
                × (pop q ≡ some (a, q')))
      go [] e = inl (rw e refl, rw e refl)
      go (x ∷ xs) e = inr (
        (split_back x xs).0,
        record { queue = (split_back x xs).1 },
        rw e (split_back-reverse x xs),
        rw e refl,
      )

-- What the threads do, in the order in which they hold the mutex.
pub data Event {ℓ} (A : Type ℓ) : Type ℓ where
  pushes : A → Event A
  pops : A → Event A

module _ {ℓ} {A : Type ℓ} where
  -- An execution from `q`, its events and the queue that it leaves. A thread whose `pop` is blocked
  -- takes no step.
  pub data Runs (q : BlockingQueue A) : List (Event A) → BlockingQueue A → Type ℓ where
    start : Runs q [] q
    push_step :
        {es : List (Event A)} {r : BlockingQueue A} (a : A)
        → Runs q es r
        → Runs q (es ++ pushes a ∷ []) (push a r)
    pop_step :
        {es : List (Event A)} {r : BlockingQueue A} (a : A) (r' : BlockingQueue A)
        → Runs q es r
        → pop r ≡ some (a, r')
        → Runs q (es ++ pops a ∷ []) r'

  abbrev pub pushed : List (Event A) → List A
  pushed [] = []
  pushed (pushes a ∷ es) = a ∷ pushed es
  pushed (pops a ∷ es) = pushed es

  abbrev pub popped : List (Event A) → List A
  popped [] = []
  popped (pushes a ∷ es) = popped es
  popped (pops a ∷ es) = a ∷ popped es

  pushed-append : (es fs : List (Event A)) → pushed (es ++ fs) ≡ pushed es ++ pushed fs
  pushed-append [] fs = refl
  pushed-append (pushes a ∷ es) fs = ap (◌∷◌ a) (pushed-append es fs)
  pushed-append (pops a ∷ es) fs = pushed-append es fs

  popped-append : (es fs : List (Event A)) → popped (es ++ fs) ≡ popped es ++ popped fs
  popped-append [] fs = refl
  popped-append (pushes a ∷ es) fs = popped-append es fs
  popped-append (pops a ∷ es) fs = ap (◌∷◌ a) (popped-append es fs)

  to_list-pop : (a : A) (r r' : BlockingQueue A) → pop r ≡ some (a, r') → to_list r ≡ a ∷ to_list r'
  to_list-pop a r r' e = ground (arith, pop_cases r)

  Runs-to_list :
      (q r : BlockingQueue A) (es : List (Event A))
      → Runs q es r
      → to_list q ++ pushed es ≡ popped es ++ to_list r
  Runs-to_list q r es start = append-nil (to_list q)
  Runs-to_list q r es (push_step {es = fs} {r = t} a run) =
      simp (pushed-append, popped-append, to_list-push, append-nil)
        (sym (append_assoc (to_list q) (pushed fs) (a ∷ []))
          ∙ ap (λ xs. xs ++ a ∷ []) (Runs-to_list q t fs run)
          ∙ append_assoc (popped fs) (to_list t) (a ∷ []))
  Runs-to_list q r es (pop_step {es = fs} {r = t} a r' run e) =
      simp (pushed-append, popped-append, append-nil)
        (Runs-to_list q t fs run
          ∙ ap (◌++◌ (popped fs)) (to_list-pop a t r' e)
          ∙ sym (append_assoc (popped fs) (a ∷ []) (to_list r')))

  -- Whatever the threads do from an empty queue on, the values that were popped are the first
  -- of those that were pushed, in the order of the pushes, and the queue holds the others.
  pub Runs-empty :
      (r : BlockingQueue A) (es : List (Event A))
      → Runs empty es r
      → pushed es ≡ popped es ++ to_list r
  unfolding empty to_list
  Runs-empty r es run = Runs-to_list empty r es run

  -- `pop` is blocked exactly when the queue is empty.
  pub pop-eq-none_iff : (q : BlockingQueue A) → (pop q ≡ none) ↔ (to_list q ≡ [])
  pop-eq-none_iff q = (λ e. ground (arith, pop_cases q), λ e. ground (arith, pop_cases q))

-- ===== src/Base/Effect.antt =====
-- Methods that may throw, over a state: what a method leaves in the state stays when it throws.
use binglib.Base.{
  ℕ, String, ◌≡◌, refl, ◌⊎◌, inl, inr, Bool, true, false, List, [], ◌∷◌, if◌then◌else◌,
}

-- What the program throws: bing_exception.hpp, the standard exceptions that it uses, and `foreign`
-- for any other exception of a library. `undefined_behaviour` marks a step outside the language's rules,
-- and `blocked` a wait or a loop that never ends: these two are no exceptions, and nothing catches them.
pub data Exception : Type 0 where
  invalid_argument : String → Exception
  insufficient_funds : String → ℕ → ℕ → Exception
  invalid_target_address invalid_source_address out_of_range : Exception
  undefined_behaviour blocked : Exception
  foreign : String → Exception

pub data Result (A : Type 0) : Type 0 where
  ok : A → Result A
  err : Exception → Result A

abbrev pub Action : Type 0 → Type 0 → Type 0
Action S A = S → Result A × S

module _ {S A : Type 0} where
  abbrev pub pure : A → Action S A
  pure a s = (ok a, s)

  abbrev pub throw : Exception → Action S A
  throw e s = (err e, s)

  abbrev pub lift : Result A → Action S A
  lift r s = (r, s)

  abbrev pub gets : (S → A) → Action S A
  gets f s = (ok (f s), s)

abbrev pub modify : {S : Type 0} → (S → S) → Action S (Unit {0})
modify f s = (ok tt, f s)

abbrev pub bind_result : {S A B : Type 0} → Result A → S → (A → Action S B) → Result B × S
bind_result (ok a) s f = f a s
bind_result (err e) s f = (err e, s)

infixl 5 ◌>>=◌ ◌>>◌
abbrev pub ◌>>=◌ : {S A B : Type 0} → Action S A → (A → Action S B) → Action S B
◌>>=◌ m f s = bind_result (m s).0 (m s).1 f

abbrev pub ◌>>◌ : {S A B : Type 0} → Action S A → Action S B → Action S B
m >> k = m >>= λ _. k

abbrev pub throw_if : {S : Type 0} → Bool → Exception → Action S (Unit {0})
throw_if c e s = (if c then err e else ok tt, s)

-- An action on the second part of a state.
abbrev pub on_world : {V W A : Type 0} → Action W A → Action (V × W) A
on_world m s = ((m s.1).0, (s.0, (m s.1).1))

abbrev pub on_object : {V W A : Type 0} → (V → A × V) → Action (V × W) A
on_object f s = (ok (f s.0).0, ((f s.0).1, s.1))

-- A pure computation that may throw, in sequence.
module _ {A B : Type 0} where
  abbrev pub then_ok : Result A → (A → Result B) → Result B
  then_ok (ok a) f = f a
  then_ok (err e) f = err e

-- catch (exception& e)
abbrev pub caught : Exception → (Exception → Exception) → Exception
caught undefined_behaviour handler = undefined_behaviour
caught blocked handler = blocked
caught e handler = handler e

abbrev pub or_value : {A : Type 0} → A → Result A → A
or_value d (ok a) = a
or_value d (err e) = d

abbrev pub is_ok : {A : Type 0} → Result A → Bool
is_ok (ok a) = true
is_ok (err e) = false

-- A conversion of each entry of a list, up to the first that throws.
abbrev pub cons_ok : {B : Type 0} → Result B → Result (List B) → Result (List B)
cons_ok (err e) rest = err e
cons_ok (ok b) (err e) = err e
cons_ok (ok b) (ok bs) = ok (b ∷ bs)

abbrev pub map_ok : {A B : Type 0} → (A → Result B) → List A → Result (List B)
map_ok f [] = ok []
map_ok f (a ∷ items) = cons_ok (f a) (map_ok f items)

pub Result-cases :
    {A : Type 0} (r : Result A) → ((a : A) × (r ≡ ok a)) ⊎ ((e : Exception) × (r ≡ err e))
Result-cases (ok a) = inl (a, refl)
Result-cases (err e) = inr (e, refl)

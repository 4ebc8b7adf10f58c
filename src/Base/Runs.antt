-- ===== src/Base/Runs.antt =====
-- Runs of methods that end without an exception.
use binglib.Base.{◌≡◌, ap, sym, subst, ◌∙◌}
use binglib.Base.Effect.{Action, ok}

-- From `s` the action returns a value and leaves a state for which `Q` holds.
pub record Runs {S A : Type 0} (m : Action S A) (s : S) (Q : A → S → Type 0) : Type 0 where
  pub value : A
  pub after : S
  pub returns : m s ≡ (ok value, after)
  pub ensures : Q value after

pub Runs-ok :
    {S A : Type 0} (Q : A → S → Type 0) {m : Action S A} {s : S} (a : A)
    → (m s).0 ≡ ok a
    → Q a (m s).1
    → Runs m s Q
Runs-ok Q {m} {s} a e q = record {
  value = a;
  after = (m s).1;
  returns = ap (λ r. (r, (m s).1)) e;
  ensures = q;
}

-- Where the value is known.
pub Runs-value :
    {S A : Type 0} {m : Action S A} {s : S} {P : S → Type 0} (v : A)
    (run : Runs m s (λ r s'. (r ≡ v) × P s'))
    → m s ≡ (ok v, run.after)
Runs-value v run = run.returns ∙ ap (λ r. (ok r, run.after)) run.ensures.0

-- The result and the state that are left, apart.
pub Runs-result :
    {S A : Type 0} {m : Action S A} {s : S} {Q : A → S → Type 0} (run : Runs m s Q)
    → ((m s).0 ≡ ok run.value) × Q run.value (m s).1
Runs-result {Q = Q} run =
    (ap (λ r. r.0) run.returns, subst (λ r. Q run.value r.1) (sym run.returns) run.ensures)

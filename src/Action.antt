-- ===== src/Action.antt =====
-- Functions that change an object passed by pointer and return an errno: the object after the call stands
-- beside the result, since what was changed before an error stays changed.
use casync.Prelude.{Bool, true, false, Result, ok, err, Errno, ◌≡◌, refl, ap}

abbrev pub Action : Type 0 → Type 0 → Type 0
Action S A = S → S × Result A

module _ {S A : Type 0} where
  abbrev pub pure : A → Action S A
  pure a s = (s, ok a)

  abbrev pub fail : Errno → Action S A
  fail e s = (s, err e)

  abbrev pub lift : Result A → Action S A
  lift r s = (s, r)

  abbrev pub gets : (S → A) → Action S A
  gets f s = (s, ok (f s))

module _ {S : Type 0} where
  abbrev pub modify : (S → S) → Action S (Unit {0})
  modify f s = (f s, ok tt)

  -- `if (!test) return -e;`
  abbrev pub require : Bool → Errno → Action S (Unit {0})
  require true e s = (s, ok tt)
  require false e s = (s, err e)

  -- The same, of a test on the object.
  abbrev pub ensure : (S → Bool) → Errno → Action S (Unit {0})
  ensure test e s = require (test s) e s

module _ {S A B : Type 0} where
  abbrev pub continue : S × Result A → (A → Action S B) → S × Result B
  continue (s, ok a) f = f a s
  continue (s, err e) f = (s, err e)

  infixl 5 ◌>>=◌ ◌>>◌
  abbrev pub ◌>>=◌ : Action S A → (A → Action S B) → Action S B
  ◌>>=◌ m f s = continue (m s) f

  abbrev pub ◌>>◌ : Action S A → Action S B → Action S B
  m >> n = m >>= λ _. n

  -- What follows a step that succeeds
  pub continue-ok :
      (x : S × Result A) (f : A → Action S B) {a : A} → x.1 ≡ ok a → continue x f ≡ f a x.0
  continue-ok x f e = ap (λ r. continue (x.0, r) f) e

  -- Where two steps succeed, the first does.
  pub continue-eq-ok :
      (x : S × Result A) (f : A → Action S B) {b : B}
      → (continue x f).1 ≡ ok b
      → (a : A) × (x.1 ≡ ok a) × ((f a x.0).1 ≡ ok b)
  continue-eq-ok (s, ok a) f e = (a, refl, e)
  continue-eq-ok (s, err e') f e = cc

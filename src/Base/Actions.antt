-- ===== src/Base/Actions.antt =====
-- Methods that mutate an object and may raise. What was written before a raise stays written, so
-- the state comes back beside the error too.
use mathlib.Core.Path.{◌≡◌, refl}
use mathlib.Core.List.{List, [], ◌∷◌}

pub data Outcome (E A : Type 0) : Type 0 where
  return : A → Outcome E A
  raise : E → Outcome E A

abbrev pub Action : Type 0 → Type 0 → Type 0 → Type 0
Action E S A = S → Outcome E A × S

module _ {E S : Type 0} where
  abbrev pub get_state : Action E S S
  get_state s = (return s, s)

  abbrev pub modify : (S → S) → Action E S Unit
  modify f s = (return tt, f s)

module _ {E S A : Type 0} where
  abbrev pub pure : A → Action E S A
  pure a s = (return a, s)

  abbrev pub throw : E → Action E S A
  throw e s = (raise e, s)

  -- A call that reads and writes no state.
  abbrev pub lift : Outcome E A → Action E S A
  lift r s = (r, s)

module _ {E S A B : Type 0} where
  abbrev pub and_then : Outcome E A → (A → Action E S B) → Action E S B
  and_then (return a) f s = f a s
  and_then (raise e) f s = (raise e, s)

  infixl 5 ◌>>=◌ ◌>>◌
  abbrev pub ◌>>=◌ : Action E S A → (A → Action E S B) → Action E S B
  ◌>>=◌ m f s = let (r, s') = m s in and_then r f s'

  abbrev pub ◌>>◌ : Action E S A → Action E S B → Action E S B
  m >> n = m >>= λ _. n

module _ {E S A : Type 0} where
  -- `for x in xs: body(x)`, stopped by the first raise.
  unfoldable pub for_each : (A → Action E S Unit) → List A → Action E S Unit
  for_each body [] = pure tt
  for_each body (x ∷ xs) = body x >> for_each body xs

  -- A loop whose body never raises, and keeps an invariant, never raises, and keeps it.
  pub for_each_inv :
      (P : S → Type 0) (body : A → Action E S Unit)
      → ((x : A) (s : S) → P s → ((body x s).0 ≡ return tt) × P (body x s).1)
      → (xs : List A) (s : S) → P s
      → ((for_each body xs s).0 ≡ return tt) × P (for_each body xs s).1
  unfolding for_each
  for_each_inv P body step [] s p = (refl, p)
  for_each_inv P body step (x ∷ xs) s p =
      let (returned, kept) = step x s p in
      rw returned (for_each_inv P body step xs (body x s).1 kept)

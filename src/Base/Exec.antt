-- ===== src/Base/Exec.antt =====
-- A method that reads and writes an object and may raise. What was written before a raise stays
-- written, so the state comes back beside the error too.
use mathlib.Core.Bool.{Bool, true, false}

pub data Result (E A : Type 0) : Type 0 where
  ok : A → Result E A
  err : E → Result E A

abbrev pub on_ok : {E A B : Type 0} → Result E A → (A → Result E B) → Result E B
on_ok (ok a) f = f a
on_ok (err e) f = err e

abbrev pub Exec : Type 0 → Type 0 → Type 0 → Type 0
Exec S E A = S → Result E A × S

module _ {S E : Type 0} where
  abbrev pub pure : {A : Type 0} → A → Exec S E A
  pure a s = (ok a, s)

  abbrev pub raise : {A : Type 0} → E → Exec S E A
  raise e s = (err e, s)

  abbrev pub raise_if : Bool → E → Exec S E (Unit {0})
  raise_if true e s = (err e, s)
  raise_if false e s = (ok tt, s)

  infixl 5 ◌>>=◌ ◌>>◌
  abbrev pub ◌>>=◌ : {A B : Type 0} → Exec S E A → (A → Exec S E B) → Exec S E B
  ◌>>=◌ m f s = let (r, s') = m s in elim r [ ok a ↦ f a s' | err e ↦ (err e, s') ]

  abbrev pub ◌>>◌ : {A B : Type 0} → Exec S E A → Exec S E B → Exec S E B
  m >> k = m >>= λ _. k

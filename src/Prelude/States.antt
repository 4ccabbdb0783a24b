-- ===== src/Prelude/States.antt =====
-- State passing: a method that changes its receiver returns a result and the new receiver.
abbrev pub State : Type 0 → Type 0 → Type 0
State S A = S → A × S

infixl 5 ◌>>=◌
unfoldable pub ◌>>=◌ : {S A B : Type 0} → State S A → (A → State S B) → State S B
◌>>=◌ m f s = let r = m s in f r.0 r.1

unfoldable pub pure : {S A : Type 0} → A → State S A
pure a s = (a, s)

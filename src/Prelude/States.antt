-- ===== src/Prelude/States.antt =====
-- Functions on a state that may fail, with the state kept on failure, as `async fn`s on `&self` do.
use open_functions.Prelude.Results.{Result, ok, err}

abbrev pub Op : Type 0 → Type 0 → Type 0 → Type 0
Op W E A = W → W × Result E A

abbrev pub resume : {W E A B : Type 0} → (A → Op W E B) → W × Result E A → W × Result E B
resume f (w, ok a) = f a w
resume f (w, err e) = (w, err e)

infixl 5 ◌>>=◌ ◌>>◌
abbrev pub ◌>>=◌ : {W E A B : Type 0} → Op W E A → (A → Op W E B) → Op W E B
(m >>= f) w = resume f (m w)

abbrev pub ◌>>◌ : {W E B : Type 0} → Op W E (Unit {0}) → Op W E B → Op W E B
m >> k = m >>= λ _. k

abbrev pub return : {W E A : Type 0} → A → Op W E A
return a w = (w, ok a)

abbrev pub modify : {W E : Type 0} → (W → W) → Op W E (Unit {0})
modify f w = (f w, ok tt)

abbrev pub lift : {W E A : Type 0} → Result E A → Op W E A
lift r w = (w, r)

-- ===== src/Prelude/Paths.antt =====
-- `Path::join`, `Path::parent` and `to_string` of a `u32`, on bytes.
use Prim.Native.Nat.{ℕ, zero, suc, ◌+◌, ◌/◌, ◌%◌}
use mathlib.Core.Bool.{Bool, false}
use mathlib.Core.Option.{none, some}
use mathlib.Core.List.{[], ◌∷◌, ◌++◌}
use open_functions.Prelude.Tests.{ltb, ◌==◌, if◌then◌else◌}
use open_functions.Prelude.Text.{Bytes, rsplit_once}

-- The last byte is a slash.
abbrev ends_in_slash : Bytes → Bool
ends_in_slash [] = false
ends_in_slash (b ∷ []) = b == b'/'
ends_in_slash (_ ∷ c ∷ bs) = ends_in_slash (c ∷ bs)

abbrev separated : Bytes → Bytes → Bytes
separated [] b = b
separated (a ∷ as') b = if ends_in_slash (a ∷ as') then (a ∷ as') ++ b else (a ∷ as') ++ b'/' ∷ b

-- An absolute second path replaces the first.
abbrev pub join : Bytes → Bytes → Bytes
join a [] = separated a []
join a (b ∷ bs) = if b == b'/' then b ∷ bs else separated a (b ∷ bs)

-- Of a path of two or more components, with no slash at its end.
abbrev pub parent_or : Bytes → Bytes → Bytes
parent_or path d = elim (rsplit_once b'/' path) [ none ↦ d | some (dir, _) ↦ dir ]

decimal_digits : ℕ → ℕ → Bytes
decimal_digits zero n = []
decimal_digits (suc fuel) n =
    let rest = decimal_digits fuel (n / 10) in
    if ltb n 10 then (b'0' + n) ∷ [] else rest ++ (b'0' + n % 10) ∷ []

unfoldable pub to_string : ℕ → Bytes
unfolding decimal_digits
to_string n = decimal_digits (suc n) n

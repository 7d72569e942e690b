-- ===== src/Prelude/Text.antt =====
-- Rust's `&str` as its UTF-8 bytes, with the operations of `str` that the code uses.
use Prim.Native.Nat.{ℕ}
use Prim.Native.Char.{code}
use Prim.Native.String.{String}
use mathlib.Core.Path.{◌≡◌, refl}
use mathlib.Core.Logic.{◌↔◌}
use mathlib.Core.Bool.{Bool, true, false, ◌&&◌, ◌||◌}
use mathlib.Core.Option.{Option, none, some}
use mathlib.Core.List.{List, [], ◌∷◌, ◌++◌}
use native.Mathlib.Omega.{arith}
use open_functions.Prelude.Classes.{list_eq, ℕ_Eq}
use open_functions.Prelude.Tests.{leb, ◌==◌, ==_iff, if◌then◌else◌}

abbrev pub Bytes : Type 0
Bytes = List ℕ

-- The bytes of an ASCII literal.
abbrev pub codes : String → Bytes
codes String.[] = []
codes (String.◌∷◌ c s) = code c ∷ codes s

abbrev pub is_empty : Bytes → Bool
is_empty [] = true
is_empty (_ ∷ _) = false

-- `u8::is_ascii_lowercase` and its siblings.
abbrev pub is_lower : ℕ → Bool
is_lower b = leb b'a' b && leb b b'z'

abbrev pub is_upper : ℕ → Bool
is_upper b = leb b'A' b && leb b b'Z'

abbrev pub is_digit : ℕ → Bool
is_digit b = leb b'0' b && leb b b'9'

abbrev pub is_alpha : ℕ → Bool
is_alpha b = is_lower b || is_upper b

abbrev pub is_alnum : ℕ → Bool
is_alnum b = is_alpha b || is_digit b

-- `s.as_bytes().first().is_some_and(p)`.
abbrev pub first_is : (ℕ → Bool) → Bytes → Bool
first_is p [] = false
first_is p (b ∷ _) = p b

-- `s.strip_prefix(p)`.
abbrev pub strip_prefix : Bytes → Bytes → Option Bytes
strip_prefix [] s = some s
strip_prefix (p ∷ ps) [] = none
strip_prefix (p ∷ ps) (c ∷ cs) = let rest = strip_prefix ps cs in if p == c then rest else none

abbrev pub starts_with : Bytes → Bytes → Bool
starts_with [] s = true
starts_with (p ∷ ps) [] = false
starts_with (p ∷ ps) (c ∷ cs) = p == c && starts_with ps cs

-- `s.find(c)`, as the part before the first `c` and the part from it on.
abbrev pub split_at : ℕ → Bytes → Option (Bytes × Bytes)
split_at c [] = none
split_at c (b ∷ bs) =
    let rest = split_at c bs in
    if b == c
    then some ([], b ∷ bs)
    else elim rest [ none ↦ none | some (pre, post) ↦ some (b ∷ pre, post) ]

-- A prefix that `strip_prefix` takes off, put back, gives the text.
pub strip_prefix_sound : (p s rest : Bytes) → strip_prefix p s ≡ some rest → p ++ rest ≡ s
strip_prefix_sound [] s rest h = ground arith
strip_prefix_sound (p ∷ ps) [] rest h = cc
strip_prefix_sound (p ∷ ps) (c ∷ cs) rest h =
    ground (arith, strip_prefix_sound ps cs rest, ==_iff p c)

pub strip_prefix-append : (p s : Bytes) → strip_prefix p (p ++ s) ≡ some s
strip_prefix-append [] s = refl
strip_prefix-append (p ∷ ps) s = ground (arith, strip_prefix-append ps s)

starts_with_sound : (p s : Bytes) → starts_with p s ≡ true → (rest : Bytes) × (p ++ rest ≡ s)
starts_with_sound [] s h = (s, refl)
starts_with_sound (p ∷ ps) [] h = cc
starts_with_sound (p ∷ ps) (c ∷ cs) h =
    let (rest, e) = starts_with_sound ps cs (ground arith) in (rest, ground (arith, e))

starts_with-append : (p s : Bytes) → starts_with p (p ++ s) ≡ true
starts_with-append [] s = refl
starts_with-append (p ∷ ps) s = ground (arith, starts_with-append ps s)

pub starts_with_iff : (p s : Bytes) → (starts_with p s ≡ true) ↔ ((rest : Bytes) × (p ++ rest ≡ s))
starts_with_iff p s = (starts_with_sound p s, λ h. rw (← h.1) (starts_with-append p h.0))

-- `s.rsplit_once(c)`: around the last `c`, which is in neither part.
abbrev pub rsplit_once : ℕ → Bytes → Option (Bytes × Bytes)
rsplit_once c [] = none
rsplit_once c (b ∷ bs) = elim (rsplit_once c bs) [
  | some (pre, post) ↦ some (b ∷ pre, post)
  | none ↦ if b == c then some ([], bs) else none
]

-- `s.strip_suffix(t)`
abbrev pub strip_suffix : Bytes → Bytes → Option Bytes
strip_suffix t [] = if list_eq [] t then some [] else none
strip_suffix t (c ∷ cs) =
    let rest = strip_suffix t cs in
    if list_eq (c ∷ cs) t then some [] else elim rest [ none ↦ none | some pre ↦ some (c ∷ pre) ]

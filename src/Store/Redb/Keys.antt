-- ===== src/Store/Redb/Keys.antt =====
-- The keys of the revisions tell apart functions and numbers.
use Prim.Native.Nat.{◌/◌}
use open_functions.Prelude.{
  ℕ, zero, suc, ◌+◌, ◌%◌, ◌^◌, ◌<◌, Bytes, [], ◌∷◌, ◌++◌, length, length-append, ◌≡◌, refl, ap,
  arith,
}
use open_functions.Store.Redb.{digits, revision_key}

length-digits : (width n : ℕ) → length (digits width n) ≡ width
unfolding digits
length-digits zero n = refl
length-digits (suc width) n = omega (
  arith,
  length-append (digits width (n / 10)) ((b'0' + n % 10) ∷ []),
  length-digits width (n / 10),
)

-- Two ends of the same length.
append-cancel : (s t u v : Bytes) → length u ≡ length v → s ++ u ≡ t ++ v → (s ≡ t) × (u ≡ v)
append-cancel [] [] u v l e = (refl, e)
append-cancel [] (b ∷ t) u v l e = absurd (omega (arith, l, ap length e, length-append t v))
append-cancel (a ∷ s) [] u v l e = absurd (omega (arith, l, ap length e, length-append s u))
append-cancel (a ∷ s) (b ∷ t) u v l e =
    let (p, q) = append-cancel s t u v l (ground arith) in (ground (arith, p), q)

digits_injective :
    (width n m : ℕ) → n < 10 ^ width → m < 10 ^ width → digits width n ≡ digits width m → n ≡ m
unfolding digits
digits_injective zero n m a b e = omega (arith, a, b)
digits_injective (suc width) n m a b e =
    let (p, q) =
      append-cancel (digits width (n / 10)) (digits width (m / 10)) ((b'0' + n % 10) ∷ [])
        ((b'0' + m % 10) ∷ []) refl e in
    let last : b'0' + n % 10 ≡ b'0' + m % 10 = ground (arith, q) in
    let first : n / 10 ≡ m / 10 =
      digits_injective width (n / 10) (m / 10) (omega (arith, a)) (omega (arith, b)) p in
    omega (arith, first, last)

-- Two revisions with the same key are of the same function and have the same number.
pub revision_key_injective :
    (name other : Bytes) (n m : ℕ)
    → n < 2 ^ 32
    → m < 2 ^ 32
    → revision_key name n ≡ revision_key other m
    → (name ≡ other) × (n ≡ m)
unfolding revision_key
revision_key_injective name other n m a b e =
    let (p, q) =
      append-cancel name other (0 ∷ digits 10 n) (0 ∷ digits 10 m)
        (omega (arith, length-digits 10 n, length-digits 10 m)) e in
    (p, digits_injective 10 n m (omega (arith, a)) (omega (arith, b)) (ground (arith, q)))

-- ===== src/Store/Listing.antt =====
-- `list_functions` lists every stored function, in the order of the names.
use open_functions.Prelude.{
  Bytes, List, [], ◌∷◌, ◌≡◌, refl, inl, inr, true, false, Bool-cases, ok, arith, if◌then◌else◌,
}
use mathlib.Core.List.{Permᴰ}
use mathlib.Core.List.Permᴰ.{nil, cons, swap, trans, refl as Permᴰ-refl}
use open_functions.Model.{Function}
use open_functions.Store.{
  MemoryStore, values, not_after, sort_by_name, insert_by_name, list_functions,
}

-- Each name comes no later than the next.
abbrev pub IsSorted : List Function → Type 0
IsSorted [] = Unit
IsSorted (f ∷ []) = Unit
IsSorted (f ∷ g ∷ fs) = (not_after f.name g.name ≡ true) × IsSorted (g ∷ fs)

not_after-total : (a b : Bytes) → not_after a b ≡ false → not_after b a ≡ true
unfolding not_after
not_after-total [] b h = absurd (ground arith)
not_after-total (x ∷ a) [] h = refl
not_after-total (x ∷ a) (y ∷ b) h = ground (arith, not_after-total a b)

-- The insertion goes past `g`.
insert_after :
    (f g h : Function) (fs : List Function)
    → not_after g.name f.name ≡ true
    → IsSorted (g ∷ h ∷ fs)
    → IsSorted (insert_by_name f (h ∷ fs))
    → IsSorted (g ∷ insert_by_name f (h ∷ fs))
unfolding insert_by_name
insert_after f g h fs t s i = elim (Bool-cases (not_after f.name h.name)) [
  | inl e ↦ rw (e, if◌then◌else◌) (t, (e, s.1))
  | inr e ↦ rw (e, if◌then◌else◌) (s.0, rw (e, if◌then◌else◌) at i)
]

insert_by_name-IsSorted :
    (f : Function) (fs : List Function) → IsSorted fs → IsSorted (insert_by_name f fs)
unfolding insert_by_name
insert_by_name-IsSorted f [] s = tt
insert_by_name-IsSorted f (g ∷ []) s = elim (Bool-cases (not_after f.name g.name)) [
  | inl e ↦ rw (e, if◌then◌else◌) (e, tt)
  | inr e ↦ rw (e, if◌then◌else◌) (not_after-total f.name g.name e, tt)
]
insert_by_name-IsSorted f (g ∷ h ∷ fs) s = elim (Bool-cases (not_after f.name g.name)) [
  | inl e ↦ rw (e, if◌then◌else◌) (e, s)
  | inr e ↦
      rw (e, if◌then◌else◌)
        (insert_after f g h fs (not_after-total f.name g.name e) s
          (insert_by_name-IsSorted f (h ∷ fs) s.1))
]

insert_by_name-Permᴰ : (f : Function) (fs : List Function) → Permᴰ (f ∷ fs) (insert_by_name f fs)
unfolding insert_by_name
insert_by_name-Permᴰ f [] = cons refl nil
insert_by_name-Permᴰ f (g ∷ fs) = elim (Bool-cases (not_after f.name g.name)) [
  | inl e ↦ rw (e, if◌then◌else◌) (Permᴰ-refl (f ∷ g ∷ fs))
  | inr e ↦ rw (e, if◌then◌else◌) (trans (swap refl refl) (cons refl (insert_by_name-Permᴰ f fs)))
]

sort_by_name-IsSorted : (fs : List Function) → IsSorted (sort_by_name fs)
unfolding sort_by_name
sort_by_name-IsSorted [] = tt
sort_by_name-IsSorted (f ∷ fs) =
    insert_by_name-IsSorted f (sort_by_name fs) (sort_by_name-IsSorted fs)

sort_by_name-Permᴰ : (fs : List Function) → Permᴰ fs (sort_by_name fs)
unfolding sort_by_name
sort_by_name-Permᴰ [] = nil
sort_by_name-Permᴰ (f ∷ fs) =
    trans (cons refl (sort_by_name-Permᴰ fs)) (insert_by_name-Permᴰ f (sort_by_name fs))

-- The listing succeeds with every stored function once, in the order of the names.
pub list_functions-IsSorted :
    (s : MemoryStore)
    → (fs : List Function) × (list_functions s ≡ ok fs)
      × IsSorted fs
      × Permᴰ (values s.functions) fs
unfolding list_functions
list_functions-IsSorted s = (
  sort_by_name (values s.functions),
  refl,
  sort_by_name-IsSorted (values s.functions),
  sort_by_name-Permᴰ (values s.functions),
)

-- ===== src/Forward/Stripped.antt =====
-- Which headers `strip_hop_by_hop` takes away.
use open_functions.Prelude.{
  Bytes, codes, List, [], ◌∷◌, Bool, ◌||◌, true, false, if◌then◌else◌, any, ◌=?◌, list_Eq, ℕ_Eq,
  ◌≡◌, refl, ◌∙◌, ap, arith,
}
use open_functions.Forward.{
  HttpHeaders, IsLawful, hop_by_hop_headers, dynamic, remove_each, strip_hop_by_hop,
}

abbrev pub mem : Bytes → List Bytes → Bool
mem n ns = any (λ m. n =? m) ns

either_list :
    {A : Type 0} (a b : Bool) (vs : List A)
    → (if a then [] else if b then [] else vs) ≡ (if b || a then [] else vs)
either_list true b vs = ground arith
either_list false b vs = ground arith

module _ (h : HttpHeaders) (law : IsLawful h) where
  get_all-remove_each :
      (n : Bytes) (ns : List Bytes) (hs : h.HeaderMap)
      → h.get_all n (remove_each h ns hs) ≡ (if mem n ns then [] else h.get_all n hs)
  unfolding remove_each
  get_all-remove_each n [] hs = refl
  get_all-remove_each n (m ∷ ns) hs =
      ground (arith, get_all-remove_each n ns (h.remove m hs), law.get_all-remove n m hs)

  -- A hop-by-hop header, and one that a `Connection` header names, has no value left; any other
  -- has the values it had.
  pub get_all-strip_hop_by_hop :
      (n : Bytes) (hs : h.HeaderMap)
      → h.get_all n (strip_hop_by_hop h hs) ≡ (
          if mem n hop_by_hop_headers || mem n (dynamic h (h.get_all (codes "connection") hs))
          then []
          else h.get_all n hs)
  unfolding strip_hop_by_hop
  get_all-strip_hop_by_hop n hs =
      let named = dynamic h (h.get_all (codes "connection") hs) in
      let base = remove_each h hop_by_hop_headers hs in
      get_all-remove_each n named base
      ∙ ap (λ vs. if mem n named then [] else vs) (get_all-remove_each n hop_by_hop_headers hs)
      ∙ either_list (mem n named) (mem n hop_by_hop_headers) (h.get_all n hs)

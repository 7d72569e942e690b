-- ===== src/Pool/Slots.antt =====
-- The permits of the instances' semaphores, against the requests that hold them.
use open_functions.Prelude.{
  ℕ, ◌+◌, ◌-◌, ◌≤◌, ◌<◌, ◌≡◌, ◌≢◌, ◌⊎◌, refl, sym, ◌∙◌, List, [], ◌∷◌, ◌++◌, some, ◌==◌,
  if◌then◌else◌, Dict, lookup, insert, remove, map_values, IsMap, insert-IsMap, remove-IsMap,
  map_values-IsMap, lookup-insert, lookup-remove, lookup-map_values, ℕ_Eq, arith, Option-cases,
  Bool-cases, inl, inr, ap,
}
use open_functions.Pool.{SocketAddr, AcquiredInstance, InstanceState, give_back}

-- How many of the requests hold a permit of a semaphore.
unfoldable pub in_flight : ℕ → List AcquiredInstance → ℕ
in_flight n [] = 0
in_flight n (a ∷ reqs) = (if a.semaphore == n then 1 else 0) + in_flight n reqs

pub in_flight-append :
    (n : ℕ) (xs ys : List AcquiredInstance)
    → in_flight n (xs ++ ys) ≡ in_flight n xs + in_flight n ys
unfolding in_flight
in_flight-append n [] ys = omega arith
in_flight-append n (x ∷ xs) ys = omega (arith, in_flight-append n xs ys)

-- Each tracked instance has `c` permits, free or held by a request; no two instances share a
-- semaphore, and no semaphore is used before it is made.
pub record Slots (c fresh : ℕ) (reqs : List AcquiredInstance) (m : Dict SocketAddr InstanceState)
    : Type 0 where
  pub is_map : IsMap m
  pub conserved :
      (a : SocketAddr) (i : InstanceState)
      → lookup a m ≡ some i
      → i.available + in_flight i.semaphore reqs ≡ c
  pub distinct :
      (a b : SocketAddr) (i j : InstanceState)
      → lookup a m ≡ some i
      → lookup b m ≡ some j
      → i.semaphore ≡ j.semaphore
      → a ≡ b
  pub owned : (a : SocketAddr) (i : InstanceState) → lookup a m ≡ some i → i.semaphore < fresh
  pub unborn : (n : ℕ) → fresh ≤ n → in_flight n reqs ≡ 0

pub Slots-nil : (c fresh : ℕ) → Slots c fresh [] []
unfolding lookup in_flight
Slots-nil c fresh = record {
  is_map = tt;
  conserved = λ a i h. cc;
  distinct = λ a b i j h k e. cc;
  owned = λ a i h. cc;
  unborn = λ n h. refl;
}

module _ {c fresh : ℕ} {reqs : List AcquiredInstance} {m : Dict SocketAddr InstanceState}
    (s : Slots c fresh reqs m) where
  pub Slots-empty : Slots c fresh reqs []
  unfolding lookup
  Slots-empty = record {
    is_map = tt;
    conserved = λ a i h. cc;
    distinct = λ a b i j h k e. cc;
    owned = λ a i h. cc;
    unborn = s.unborn;
  }

  pub Slots-fresh : Slots c (fresh + 1) reqs m
  Slots-fresh = record {
    is_map = s.is_map;
    conserved = s.conserved;
    distinct = s.distinct;
    owned = λ a i h. omega (arith, s.owned a i h);
    unborn = λ n h. s.unborn n (omega arith);
  }

  pub Slots-remove : (addr : SocketAddr) → Slots c fresh reqs (remove addr m)
  Slots-remove addr = record {
    is_map = remove-IsMap addr m s.is_map;
    conserved = λ a i h. s.conserved a i (still a i h);
    distinct = λ a b i j h k e. s.distinct a b i j (still a i h) (still b j k) e;
    owned = λ a i h. s.owned a i (still a i h);
    unborn = s.unborn;
  }
    where
      still :
          (a : SocketAddr) (i : InstanceState)
          → lookup a (remove addr m) ≡ some i
          → lookup a m ≡ some i
      still a i h = ground (arith, lookup-remove addr a m)

  -- The insert of `i` at `addr`, if it keeps the semaphore that stood there or has a new one.
  found :
      (addr : SocketAddr) (new : InstanceState) (a : SocketAddr) (i : InstanceState)
      → lookup a (insert addr new m) ≡ some i
      → ((a ≡ addr) × (i ≡ new)) ⊎ ((a ≢ addr) × (lookup a m ≡ some i))
  found addr new a i h = elim (Bool-cases (addr == a)) [
    | inl e ↦ inl (ground (arith, e), ground (arith, e, lookup-insert addr a new m))
    | inr e ↦ inr (λ q. ground (arith, e, q), ground (arith, e, lookup-insert addr a new m))
  ]

  pub Slots-put :
      (addr : SocketAddr) (new : InstanceState) (fresh' : ℕ) (reqs' : List AcquiredInstance)
      → fresh ≤ fresh'
      → new.semaphore < fresh'
      → new.available + in_flight new.semaphore reqs' ≡ c
      → ((a : SocketAddr) (i : InstanceState)
          → lookup a m ≡ some i
          → i.semaphore ≡ new.semaphore
          → a ≡ addr)
      → ((n : ℕ) → (n ≢ new.semaphore) → in_flight n reqs' ≡ in_flight n reqs)
      → ((n : ℕ) → fresh' ≤ n → in_flight n reqs' ≡ 0)
      → Slots c fresh' reqs' (insert addr new m)
  Slots-put addr new fresh' reqs' grow own full alone same unborn' = record {
    is_map = insert-IsMap addr new m s.is_map;
    conserved = λ a i h. elim (found addr new a i h) [
      | inl (e, q) ↦ rw q full
      | inr (ne, l) ↦ omega (arith, same i.semaphore (λ e. ne (alone a i l e)), s.conserved a i l)
    ];
    distinct = λ a b i j h k e. elim (found addr new a i h) [
      | inl (p, q) ↦ elim (found addr new b j k) [
        | inl (p', q') ↦ p ∙ sym p'
        | inr (ne, l) ↦
            absurd (ne (alone b j l (sym e ∙ ap (λ (x : InstanceState). x.semaphore) q)))
      ]
      | inr (ne, l) ↦ elim (found addr new b j k) [
        | inl (p', q') ↦ absurd (ne (alone a i l (e ∙ ap (λ (x : InstanceState). x.semaphore) q')))
        | inr (ne', l') ↦ s.distinct a b i j l l' e
      ]
    ];
    owned = λ a i h. elim (found addr new a i h) [
      | inl (e, q) ↦ rw q own
      | inr (ne, l) ↦ omega (arith, s.owned a i l)
    ];
    unborn = unborn';
  }

  -- A request takes a permit of a tracked instance.
  pub Slots-use :
      (addr : SocketAddr) (inst : InstanceState) (now : ℕ)
      → lookup addr m ≡ some inst
      → 0 < inst.available
      → Slots c fresh
          (record { addr = addr; semaphore = inst.semaphore } ∷ reqs)
          (insert addr (record inst { available = inst.available - 1; last_used = now }) m)
  unfolding in_flight
  Slots-use addr inst now l free =
      Slots-put addr (record inst { available = inst.available - 1; last_used = now }) fresh _
        (omega arith) (s.owned addr inst l) (ground (arith, s.conserved addr inst l))
        (λ a i h e. s.distinct a addr i inst h l e) (λ n ne. ground arith)
        (λ n h. ground (arith, s.unborn n, s.owned addr inst l))

  -- An instance starts with a new semaphore.
  pub Slots-start :
      (addr : SocketAddr) (now : ℕ)
      → Slots c (fresh + 1) reqs (
          insert addr
            (record { handle = some addr; semaphore = fresh; available = c; last_used = now })
            m)
  Slots-start addr now =
      Slots-put addr _ (fresh + 1) reqs (omega arith) (omega arith) (omega (arith, s.unborn fresh))
        (λ a i h e. absurd (omega (arith, s.owned a i h))) (λ n ne. refl)
        (λ n h. s.unborn n (omega arith))

-- What stood at an address before every instance was given back a permit.
was :
    (semaphore : ℕ) (m : Dict SocketAddr InstanceState) (b : SocketAddr) (i : InstanceState)
    → lookup b (map_values (give_back semaphore) m) ≡ some i
    → (i₀ : InstanceState) × (lookup b m ≡ some i₀) × (i ≡ give_back semaphore i₀)
was semaphore m b i h = elim (Option-cases (lookup b m)) [
  | inl e ↦ absurd (ground (arith, e, lookup-map_values (give_back semaphore) b m))
  | inr (i₀, e) ↦ (i₀, e, ground (arith, e, lookup-map_values (give_back semaphore) b m))
]

give_back-semaphore : (n : ℕ) (i : InstanceState) → (give_back n i).semaphore ≡ i.semaphore
unfolding give_back
give_back-semaphore n i = ground arith

give_back-available :
    (n : ℕ) (i : InstanceState)
    → (give_back n i).available ≡ i.available + (if n == i.semaphore then 1 else 0)
unfolding give_back
give_back-available n i = ground arith

in_flight_split :
    (n : ℕ) (a : AcquiredInstance) (pre post : List AcquiredInstance)
    → in_flight n (pre ++ a ∷ post)
      ≡ in_flight n (pre ++ post) + (if a.semaphore == n then 1 else 0)
unfolding in_flight
in_flight_split n a pre post =
    ground (arith, in_flight-append n pre (a ∷ post), in_flight-append n pre post)

-- A request gives its permit back.
pub Slots-release :
    {c fresh : ℕ} (a : AcquiredInstance) (pre post : List AcquiredInstance)
    {m : Dict SocketAddr InstanceState}
    → Slots c fresh (pre ++ a ∷ post) m
    → Slots c fresh (pre ++ post) (map_values (give_back a.semaphore) m)
Slots-release {c} {fresh} a pre post {m} s = record {
  is_map = map_values-IsMap (give_back a.semaphore) m s.is_map;
  conserved = λ b i h.
      let (i₀, l, e) = was a.semaphore m b i h in
      rw (e, give_back-semaphore a.semaphore i₀, give_back-available a.semaphore i₀)
        (ground (arith, s.conserved b i₀ l, in_flight_split i₀.semaphore a pre post));
  distinct = λ b b' i j h k e.
      let (i₀, l, p) = was a.semaphore m b i h in
      let (j₀, l', p') = was a.semaphore m b' j k in
      s.distinct b b' i₀ j₀ l l' (
        ground
          (arith, p, p', give_back-semaphore a.semaphore i₀, give_back-semaphore a.semaphore j₀));
  owned = λ b i h.
      let (i₀, l, e) = was a.semaphore m b i h in
      rw (e, give_back-semaphore a.semaphore i₀) (s.owned b i₀ l);
  unborn = λ n h. ground (arith, s.unborn n h, in_flight_split n a pre post);
}

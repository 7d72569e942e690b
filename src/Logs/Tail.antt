-- ===== src/Logs/Tail.antt =====
-- What a buffer holds after any number of lines.
use open_functions.Prelude.{
  ℕ, zero, suc, ◌-◌, ◌+◌, ◌≤◌, ◌<◌, min, max, List, [], ◌∷◌, ◌++◌, length, drop, leb, ◌≡◌, refl,
  sym, ap, ◌∙◌, arith, length-append, length-drop, if◌then◌else◌, Bool-cases, inl, inr,
}
use mathlib.Core.List.{append_assoc}
use open_functions.Logs.{LogRingBuffer, new, push, tail}

-- The last `n` of a list.
abbrev pub last {ℓ} : {A : Type ℓ} → ℕ → List A → List A
last n xs = drop (length xs - n) xs

abbrev pub push_all : {A : Type 0} → List A → LogRingBuffer A → LogRingBuffer A
push_all [] r = r
push_all (line ∷ lines) r = push_all lines (push line r)

drop_nil : {A : Type 0} (n : ℕ) → drop {A = A} n [] ≡ []
drop_nil zero = refl
drop_nil (suc n) = refl

drop-drop : {A : Type 0} (j k : ℕ) (xs : List A) → drop j (drop k xs) ≡ drop (k + j) xs
drop-drop j zero xs = ap (λ n. drop n xs) (omega arith)
drop-drop j (suc k) [] = drop_nil j ∙ sym (drop_nil (suc k + j))
drop-drop j (suc k) (x ∷ xs) =
    let e : suc (k + j) ≡ suc k + j = omega arith in drop-drop j k xs ∙ ap (λ n. drop n (x ∷ xs)) e

last-last : {A : Type 0} (n c : ℕ) (xs : List A) → last n (last c xs) ≡ last (min n c) xs
last-last n c xs =
    let e : (length xs - c) + (length (last c xs) - n) ≡ length xs - min n c =
      omega (arith, length-drop (length xs - c) xs) in
    drop-drop (length (last c xs) - n) (length xs - c) xs ∙ ap (λ k. drop k xs) e

drop_next : {A : Type 0} (k : ℕ) (xs : List A) → drop 1 (drop k xs) ≡ drop (suc k) xs
drop_next zero xs = refl
drop_next (suc k) [] = refl
drop_next (suc k) (x ∷ xs) = drop_next k xs

drop-append {ℓ} :
    {A : Type ℓ} (k : ℕ) (xs ys : List A) → k ≤ length xs → drop k (xs ++ ys) ≡ drop k xs ++ ys
drop-append zero xs ys h = refl
drop-append (suc k) [] ys h = absurd (omega (arith, h))
drop-append (suc k) (x ∷ xs) ys h = drop-append k xs ys (omega (arith, h))

last_snoc :
    {A : Type 0} (c : ℕ) (xs : List A) (x : A)
    → 1 ≤ c
    → (if leb c (length (last c xs)) then drop 1 (last c xs) else last c xs) ++ x ∷ []
      ≡ last c (xs ++ x ∷ [])
last_snoc c xs x h =
    let k = length xs - c in
    let l = length-drop k xs in
    let a = length-append xs (x ∷ []) in
    elim (Bool-cases (leb c (length (last c xs)))) [
      | inl e ↦
          let full : c ≤ length xs = ground (arith, l) in
          let q : length (xs ++ x ∷ []) - c ≡ suc k = omega (arith, a, full) in
          rw (e, if◌then◌else◌)
            (ap (λ ls. ls ++ x ∷ []) (drop_next k xs)
              ∙ sym (drop-append (suc k) xs (x ∷ []) (omega (arith, full, h)))
              ∙ sym (ap (λ n. drop n (xs ++ x ∷ [])) q))
      | inr e ↦
          let room : length xs < c = ground (arith, l) in
          let q : length (xs ++ x ∷ []) - c ≡ 0 = omega (arith, a, room) in
          let z : k ≡ 0 = omega (arith, room) in
          rw (e, if◌then◌else◌)
            (ap (λ n. drop n xs ++ x ∷ []) z ∙ sym (ap (λ n. drop n (xs ++ x ∷ [])) q))
    ]

append_nil : {A : Type 0} (xs : List A) → xs ++ [] ≡ xs
append_nil [] = refl
append_nil (x ∷ xs) = ap (λ ls. x ∷ ls) (append_nil xs)

push_all-lines :
    {A : Type 0} (lines old : List A) (r : LogRingBuffer A)
    → 1 ≤ r.capacity
    → r.lines ≡ last r.capacity old
    → (push_all lines r).lines ≡ last r.capacity (old ++ lines)
unfolding push
push_all-lines [] old r c h = h ∙ sym (ap (last r.capacity) (append_nil old))
push_all-lines (line ∷ lines) old r c h =
    push_all-lines lines (old ++ line ∷ []) (push line r) c (
      ap (λ ls. (if leb r.capacity (length ls) then drop 1 ls else ls) ++ line ∷ []) h
      ∙ last_snoc r.capacity old line c)
    ∙ ap (last r.capacity) (append_assoc old (line ∷ []) lines)

-- After any lines, the most recent `n` are the last of what was logged, oldest first: `n` of them, or as
-- many as the capacity and the number of lines allow.
pub tail-push_all :
    {A : Type 0} (capacity n : ℕ) (lines : List A)
    → tail n (push_all lines (new capacity)) ≡ last (min n (max capacity 1)) lines
unfolding tail new
tail-push_all capacity n lines =
    ap (last n)
      (push_all-lines lines [] (new capacity) (omega arith) (sym (drop_nil (0 - max capacity 1))))
    ∙ last-last n (max capacity 1) lines

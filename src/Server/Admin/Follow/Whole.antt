-- ===== src/Server/Admin/Follow/Whole.antt =====
-- What the stream of a build's log has sent when it ends.
use open_functions.Prelude.{
  ℕ, zero, suc, ◌+◌, ◌≤◌, ◌<◌, Bytes, unwrap_or, true, false, Option, none, some, List, [], ◌∷◌,
  ◌++◌, length, drop, length-append, ◌≡◌, refl, sym, ap, ◌∙◌, subst, arith, Bool-cases, inl, inr,
}
use open_functions.Model.{BuildStatus}
use open_functions.Server.Admin.Follow.{
  Rounds, read_new_bytes, is_running, next_status, and_before, on_quiet, on_chunk, follow,
}

abbrev pub concat : List Bytes → Bytes
concat [] = []
concat (c ∷ cs) = c ++ concat cs

-- The log in round `k`: a file that is not there has no bytes.
abbrev pub log_at : Rounds → ℕ → Bytes
log_at r k = unwrap_or (r.contents k) []

abbrev pub IsDone : Rounds → ℕ → Type 0
IsDone r k = (s : BuildStatus) × (r.status k ≡ some s) × (is_running s ≡ false)

-- The log only grows. Round `i` reads the log first and the record later: where the record then says
-- that the build is done, the log is `whole` in the rounds after it. From round `n` on the record
-- says so.
pub record Completes (r : Rounds) (n : ℕ) (whole : Bytes) : Type 0 where
  pub grows : (k : ℕ) → (more : Bytes) × (log_at r (suc k) ≡ log_at r k ++ more)
  pub complete : (i k : ℕ) → i < k → IsDone r i → log_at r k ≡ whole
  pub done : (k : ℕ) → n ≤ k → IsDone r k

append_assoc : (a b c : Bytes) → (a ++ b) ++ c ≡ a ++ (b ++ c)
append_assoc [] b c = refl
append_assoc (x ∷ a) b c = ap (λ t. x ∷ t) (append_assoc a b c)

append_nil : (a : Bytes) → a ++ [] ≡ a
append_nil [] = refl
append_nil (x ∷ a) = ap (λ t. x ∷ t) (append_nil a)

drop-append : (sent rest : Bytes) → drop (length sent) (sent ++ rest) ≡ rest
drop-append [] rest = refl
drop-append (x ∷ sent) rest = drop-append sent rest

append-cancel : (a b : Bytes) → a ≡ a ++ b → b ≡ []
append-cancel [] b e = sym e
append-cancel (x ∷ a) b e = append-cancel a b (ground arith)

read_all : (c : Option Bytes) (offset : ℕ) → read_new_bytes c offset ≡ drop offset (unwrap_or c [])
unfolding read_new_bytes
read_all none zero = refl
read_all none (suc offset) = refl
read_all (some contents) offset = refl

module _ (r : Rounds) (whole : Bytes) where
  -- The stream that has sent `sent` ends, and has then sent the whole log.
  abbrev Ends : (fuel k : ℕ) → Bytes → BuildStatus → Type 0
  Ends fuel k sent status =
      (chunks : List Bytes) × (last : ℕ) × (follow r fuel k (length sent) status
        ≡ some (chunks, last))
      × (sent ++ concat chunks ≡ whole)

  new_bytes :
      (k : ℕ) (sent rest : Bytes)
      → log_at r k ≡ sent ++ rest
      → read_new_bytes (r.contents k) (length sent) ≡ rest
  new_bytes k sent rest e =
      read_all (r.contents k) (length sent) ∙ ap (drop (length sent)) e ∙ drop-append sent rest

  round :
      (fuel k : ℕ) (sent rest : Bytes) (status : BuildStatus)
      → log_at r k ≡ sent ++ rest
      → follow r (suc fuel) k (length sent) status
        ≡ on_chunk (follow r fuel (suc k)) k (length sent) (r.status k) status rest
  unfolding follow
  round fuel k sent rest status e =
      ap (on_chunk (follow r fuel (suc k)) k (length sent) (r.status k) status)
        (new_bytes k sent rest e)

  -- One round: there are new bytes, or the build is looked up again, or the stream ends.
  sends :
      (fuel k : ℕ) (sent : Bytes) (b : ℕ) (bs : Bytes) (status : BuildStatus)
      → log_at r k ≡ sent ++ b ∷ bs
      → Ends fuel (suc k) (sent ++ b ∷ bs) status
      → Ends (suc fuel) k sent status
  sends fuel k sent b bs status e (chunks, last, f, w) = (
    (b ∷ bs) ∷ chunks,
    last,
    round fuel k sent (b ∷ bs) status e
        ∙ ap (λ n. and_before (b ∷ bs) (follow r fuel (suc k) n status))
            (sym (length-append sent (b ∷ bs)))
        ∙ ap (and_before (b ∷ bs)) f,
    sym (append_assoc sent (b ∷ bs) (concat chunks)) ∙ w,
  )

  waits :
      (fuel k : ℕ) (sent : Bytes) (status : BuildStatus)
      → log_at r k ≡ sent ++ []
      → is_running status ≡ true
      → Ends fuel (suc k) sent (next_status (r.status k) status)
      → Ends (suc fuel) k sent status
  waits fuel k sent status e t (chunks, last, f, w) = (
    chunks,
    last,
    round fuel k sent [] status e
        ∙ ap (on_quiet (follow r fuel (suc k) (length sent)) k (r.status k) status) t
        ∙ f,
    w,
  )

  stops :
      (fuel k : ℕ) (sent : Bytes) (status : BuildStatus)
      → log_at r k ≡ sent ++ []
      → is_running status ≡ false
      → sent ≡ whole
      → Ends (suc fuel) k sent status
  stops fuel k sent status e t w = (
    [],
    k,
    round fuel k sent [] status e
        ∙ ap (on_quiet (follow r fuel (suc k) (length sent)) k (r.status k) status) t,
    append_nil sent ∙ w,
  )

-- The rounds that are enough from `d` rounds before round `n` on.
abbrev enough : ℕ → ℕ
enough zero = 4
enough (suc d) = suc (enough d)

enough_lem : (d : ℕ) → enough d ≡ d + 4
enough_lem zero = refl
enough_lem (suc d) = omega (arith, enough_lem d)

module _ (r : Rounds) (n : ℕ) (whole : Bytes) (h : Completes r n whole) where
  late : (k : ℕ) → n < k → log_at r k ≡ whole
  late zero m = elim m [ ]
  late (suc k) m = h.complete k (suc k) (omega arith) (h.done k (omega (arith, m)))

  -- After round `n`, three rounds are enough.
  done-Ends :
      (fuel k : ℕ) (sent : Bytes) (status : BuildStatus)
      → n < k
      → sent ≡ whole
      → is_running status ≡ false
      → Ends r whole (suc fuel) k sent status
  done-Ends fuel k sent status m w t =
      stops r whole fuel k sent status (late k m ∙ sym w ∙ sym (append_nil sent)) t w

  sent-Ends :
      (fuel k : ℕ) (sent : Bytes) (status : BuildStatus)
      → n < k
      → sent ≡ whole
      → Ends r whole (suc (suc fuel)) k sent status
  sent-Ends fuel k sent status m w = elim (Bool-cases (is_running status)) [
    | inr t ↦ done-Ends (suc fuel) k sent status m w t
    | inl t ↦
        let (s, q, d) = h.done k (omega (arith, m)) in
        let after : is_running (next_status (r.status k) status) ≡ false =
          ap (λ x. is_running (next_status x status)) q ∙ d in
        waits r whole (suc fuel) k sent status (late k m ∙ sym w ∙ sym (append_nil sent)) t
          (done-Ends fuel (suc k) sent (next_status (r.status k) status) (omega (arith, m)) w after)
  ]

  late-Ends :
      (fuel k : ℕ) (sent rest : Bytes) (status : BuildStatus)
      → n < k
      → log_at r k ≡ sent ++ rest
      → Ends r whole (suc (suc (suc fuel))) k sent status
  late-Ends fuel k sent [] status m e =
      sent-Ends (suc fuel) k sent status m (sym (append_nil sent) ∙ sym e ∙ late k m)
  late-Ends fuel k sent (b ∷ bs) status m e =
      sends r whole (suc (suc fuel)) k sent b bs status e
        (sent-Ends fuel (suc k) (sent ++ b ∷ bs) status (omega (arith, m)) (sym e ∙ late k m))

  abbrev Knows : ℕ → BuildStatus → Type 0
  Knows k status = is_running status ≡ false → (i : ℕ) → k ≤ i → log_at r i ≡ whole

  next-Knows :
      (k : ℕ) (status : BuildStatus)
      → is_running status ≡ true
      → (found : Option BuildStatus) → r.status k ≡ found
      → Knows (suc k) (next_status found status)
  next-Knows k status t none q = λ d. absurd (ground arith)
  next-Knows k status t (some s) q = λ d i m. h.complete k i (omega (arith, m)) (s, q, d)

  -- One round, from what is known of the next one.
  next-Ends :
      (fuel k : ℕ) (sent rest : Bytes) (status : BuildStatus)
      → log_at r k ≡ sent ++ rest
      → Knows k status
      → ((sent' rest' : Bytes) (status' : BuildStatus)
          → log_at r (suc k) ≡ sent' ++ rest'
          → Knows (suc k) status'
          → Ends r whole fuel (suc k) sent' status')
      → Ends r whole (suc fuel) k sent status
  next-Ends fuel k sent (b ∷ bs) status e known ih =
      let (more, g) = h.grows k in
      sends r whole fuel k sent b bs status e (
        ih (sent ++ b ∷ bs) more status (g ∙ ap (λ x. x ++ more) e)
          (λ t i l. known t i (omega (arith, l))))
  next-Ends fuel k sent [] status e known ih = elim (Bool-cases (is_running status)) [
    | inr t ↦
        stops r whole fuel k sent status e t
          (sym (append_nil sent) ∙ sym e ∙ known t k (omega arith))
    | inl t ↦
        let (more, g) = h.grows k in
        waits r whole fuel k sent status e t (
          ih sent more (next_status (r.status k) status)
            (g ∙ ap (λ x. x ++ more) (e ∙ append_nil sent))
            (next-Knows k status t (r.status k) refl))
  ]

  from-Ends :
      (d k : ℕ) (sent rest : Bytes) (status : BuildStatus)
      → n ≡ k + d
      → log_at r k ≡ sent ++ rest
      → Knows k status
      → Ends r whole (enough d) k sent status
  from-Ends zero k sent rest status m e known =
      next-Ends 3 k sent rest status e known (λ sent' rest' status' e' known'.
        late-Ends 0 (suc k) sent' rest' status' (omega (arith, m)) e')
  from-Ends (suc d) k sent rest status m e known =
      next-Ends (enough d) k sent rest status e known (λ sent' rest' status' e' known'.
        from-Ends d (suc k) sent' rest' status' (omega (arith, m)) e' known')

  -- For a build whose log only grows, and is whole in every round after one that found the build's
  -- record done, which each round finds from round n on: the stream of the log, followed from its
  -- beginning, ends within n + 4 rounds and has then sent the whole log. If the build was already
  -- done when the stream began, the log was whole from then on.
  pub follow-whole :
      (status : BuildStatus)
      → (is_running status ≡ false → (i : ℕ) → 0 ≤ i → log_at r i ≡ whole)
      → (chunks : List Bytes) × (last : ℕ) × (follow r (n + 4) 0 0 status ≡ some (chunks, last))
        × (concat chunks ≡ whole)
  follow-whole status known =
      subst (λ fuel. Ends r whole fuel 0 [] status) (enough_lem n)
        (from-Ends n 0 [] (log_at r 0) status (omega arith) refl known)

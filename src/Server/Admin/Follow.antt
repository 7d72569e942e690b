-- ===== src/Server/Admin/Follow.antt =====
-- server/admin.rs: the stream of a build's log, `follow_build_log_step` and `read_new_bytes`.
pub mod Whole
use open_functions.Prelude.{
  ℕ, zero, suc, ◌+◌, ◌≤◌, Bytes, is_empty, unwrap_or, Bool, true, false, Option, none, some, List,
  [], ◌∷◌, ◌++◌, length, take, drop, length-append, length-drop, ◌≡◌, refl, sym, ap, ◌∙◌, ◌↔◌,
  if◌then◌else◌, arith, Bool-cases, inl, inr,
}
use open_functions.Model.{BuildStatus, running, succeeded, failed}

-- What each round finds: the file, if it can be read, and the build's record, if there is one.
pub record Rounds : Type 0 where
  pub contents : ℕ → Option Bytes
  pub status : ℕ → Option BuildStatus

-- The new bytes; the offset grows by their number.
unfoldable pub read_new_bytes : Option Bytes → (offset : ℕ) → Bytes
read_new_bytes none offset = []
read_new_bytes (some contents) offset = drop offset contents

unfoldable pub is_running : BuildStatus → Bool
is_running running = true
is_running succeeded = false
is_running failed = false

abbrev pub next_status : Option BuildStatus → BuildStatus → BuildStatus
next_status none status = status
next_status (some s) status = s

-- The chunks of a stream, and its last round; `none` means that the fuel ran out before it ended.
abbrev pub Streamed : Type 0
Streamed = Option (List Bytes × ℕ)

abbrev pub and_before : Bytes → Streamed → Streamed
and_before chunk none = none
and_before chunk (some (chunks, last)) = some (chunk ∷ chunks, last)

-- Nothing new in round `k`.
abbrev pub on_quiet :
    (BuildStatus → Streamed) → ℕ → Option BuildStatus → BuildStatus → Bool → Streamed
on_quiet continue k found status true = continue (next_status found status)
on_quiet continue k found status false = some ([], k)

abbrev pub on_chunk :
    (ℕ → BuildStatus → Streamed)
    → (k offset : ℕ) → Option BuildStatus
    → BuildStatus
    → Bytes
    → Streamed
on_chunk continue k offset found status [] =
    on_quiet (continue offset) k found status (is_running status)
on_chunk continue k offset found status (b ∷ bs) =
    and_before (b ∷ bs) (continue (offset + length (b ∷ bs)) status)

-- The stream from round `k` on.
unfoldable pub follow : Rounds → (fuel k offset : ℕ) → BuildStatus → Streamed
unfolding read_new_bytes is_running
follow r zero k offset status = none
follow r (suc fuel) k offset status =
    on_chunk (follow r fuel (suc k)) k offset (r.status k) status
      (read_new_bytes (r.contents k) offset)

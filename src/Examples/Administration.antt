-- ===== src/Examples/Administration.antt =====
-- Requests to the admin listener, and the log of a build that is followed.
use open_functions.Prelude.{
  ℕ, zero, suc, ◌<◌, ◌++◌, Bytes, codes, true, false, Option, none, some, List, [], ◌∷◌, ◌≡◌, refl,
  lookup, list_Eq, ℕ_Eq, if◌then◌else◌, arith,
}
use open_functions.Model.{running, succeeded}
use open_functions.Forward.{first_text}
use open_functions.Server.Admin.{
  AdminState, Surface, deletes, gets, stops, v1, unauthorized, deleting,
}
use open_functions.Server.Admin.Deleted.{IsUnknown, deletes-IsUnknown}
use open_functions.Server.Admin.Handlers.{serve_v1, serve_admin}
use open_functions.Server.Admin.Guarded.{is_exactly, serve_admin-token}
use open_functions.Server.Admin.Follow.{Rounds, is_running, follow}
use open_functions.Server.Admin.Follow.Whole.{Completes, IsDone, log_at, concat, follow-whole}
use open_functions.Examples.Headers.{Pairs, header_lists, values_of}
use open_functions.Examples.Fixtures.{outside, service, greeter, deployed}

abbrev pub surface : Surface outside
surface = record {
  debug = λ s. s;
  show_validation_error = λ e. [];
  show_pubsub_error = λ e. [];
  read_to_string = λ s path. none;
  read_error = codes "no such file";
  record_to_vec = some;
  render = [];
}

abbrev state : AdminState
state = record {
  token = some (codes "secret");
  metrics_enabled = true;
  metrics_require_token = false;
  ready = true;
  invoke_base_url = codes "http://127.0.0.1:8080";
  host_suffix = none;
}

abbrev headers : Pairs
headers = (codes "authorization", codes "Bearer guess") ∷ []

serve_admin-token_example :
    serve_admin outside service surface header_lists state headers
      (v1 (deletes (codes "greeter")))
      deployed
    ≡ (if is_exactly
          (first_text header_lists (codes "authorization") headers)
          (codes "Bearer " ++ codes "secret")
        then serve_v1 outside service surface state (deletes (codes "greeter")) deployed
        else (deployed, unauthorized))
serve_admin-token_example =
    serve_admin-token outside service surface header_lists state (codes "secret") headers
      (deletes (codes "greeter")) deployed refl

wrong_token :
    is_exactly
      (first_text header_lists (codes "authorization") headers)
      (codes "Bearer " ++ codes "secret")
    ≡ false
unfolding values_of
wrong_token = refl

deletes-IsUnknown_example :
    let after = serve_v1 outside service surface state (deletes (codes "greeter")) deployed in
    (after.1 ≡ deleting)
    × IsUnknown outside service surface state (gets (codes "greeter")) (codes "greeter") after.0
    × IsUnknown outside service surface state (deletes (codes "greeter")) (codes "greeter") after.0
    × IsUnknown outside service surface state (stops (codes "greeter")) (codes "greeter") after.0
unfolding lookup
deletes-IsUnknown_example = deletes-IsUnknown outside service surface state greeter deployed refl

-- The build ends while the first round waits: that round has read a part of the log, and then finds
-- the record done.
abbrev contents : ℕ → Option Bytes
contents zero = some (codes "a")
contents (suc k) = some (codes "ab")

abbrev rounds : Rounds
rounds = record { contents = contents; status = λ k. some succeeded }

rounds-Completes : Completes rounds 0 (codes "ab")
unfolding is_running
rounds-Completes = record {
  grows = grows;
  complete = complete;
  done = λ k m. (succeeded, refl, refl);
}
  where
    grows : (k : ℕ) → (more : Bytes) × (log_at rounds (suc k) ≡ log_at rounds k ++ more)
    grows zero = (codes "b", refl)
    grows (suc k) = ([], refl)

    complete : (i k : ℕ) → i < k → IsDone rounds i → log_at rounds k ≡ codes "ab"
    complete i zero m d = absurd (omega (arith, m))
    complete i (suc k) m d = refl

follow-whole_example :
    (chunks : List Bytes) × (last : ℕ) × (follow rounds 4 0 0 running ≡ some (chunks, last))
    × (concat chunks ≡ codes "ab")
unfolding is_running
follow-whole_example =
    follow-whole rounds 0 (codes "ab") rounds-Completes running (λ e. absurd (ground arith))

-- ===== src/Server/Admin/Deleted.antt =====
-- What the admin listener answers about a function that it has deleted.
use open_functions.Prelude.{
  Bytes, codes, none, some, ◌≡◌, refl, ◌∙◌, ◌++◌, lookup, list_Eq, ℕ_Eq, list_eq_iff, if◌then◌else◌,
}
use open_functions.Model.{Function}
use open_functions.Store.{get_function}
use open_functions.Registry.{Outside, World, Config}
use open_functions.Registry.Remove.{delete, read, stop_instances}
use open_functions.Registry.Remove.Gone.{delete-gone}
use open_functions.Server.Admin.{
  AdminState, Surface, V1Request, gets, deletes, stops, plain, deleting,
}
use open_functions.Server.Admin.Handlers

-- The request is answered with 404 and changes nothing.
abbrev pub IsUnknown :
    (o : Outside) → Config → Surface o → AdminState → V1Request → Bytes → World o → Type 0
IsUnknown o c u state r name w =
    Handlers.serve_v1 o c u state r w
    ≡ (w, plain 404 (codes "NOT_FOUND") (codes "function " ++ u.debug name ++ codes " not found"))

module _ (o : Outside) (c : Config) (u : Surface o) (state : AdminState) where
  gets-IsUnknown :
      (name : Bytes) (w : World o)
      → lookup name w.store.functions ≡ none
      → IsUnknown o c u state (gets name) name w
  unfolding Handlers.serve_v1 Handlers.get_reply get_function
  gets-IsUnknown name w l = rw (l, Handlers.get_reply) refl

  deletes_none-IsUnknown :
      (name : Bytes) (w : World o)
      → lookup name w.store.functions ≡ none
      → IsUnknown o c u state (deletes name) name w
  unfolding Handlers.serve_v1 Handlers.deletion_reply delete read get_function
  deletes_none-IsUnknown name w l = rw (l, delete) refl

  stops-IsUnknown :
      (name : Bytes) (w : World o)
      → lookup name w.store.functions ≡ none
      → IsUnknown o c u state (stops name) name w
  unfolding Handlers.serve_v1 Handlers.deletion_reply stop_instances read get_function
  stops-IsUnknown name w l = rw (l, stop_instances) refl

  -- A deletion of a function that is stored is answered as a deletion that is under way. After it, a
  -- request for the function's record, another deletion of it and a stop of its instances are
  -- answered with 404, and change nothing.
  pub deletes-IsUnknown :
      (f : Function) (w : World o)
      → lookup f.name w.store.functions ≡ some f
      → let after = Handlers.serve_v1 o c u state (deletes f.name) w in
        (after.1 ≡ deleting)
        × IsUnknown o c u state (gets f.name) f.name after.0
        × IsUnknown o c u state (deletes f.name) f.name after.0
        × IsUnknown o c u state (stops f.name) f.name after.0
  unfolding Handlers.serve_v1 Handlers.deletion_reply
  deletes-IsUnknown f w l =
      let (answered, revisions, rest) = delete-gone o c u.show_pubsub_error f w l in
      let gone = (rest f.name).0 ∙ rw ((list_eq_iff f.name f.name).1 refl, if◌then◌else◌) refl in
      let w' = (delete o c u.show_pubsub_error f.name w).0 in
      (
        rw (answered, Handlers.deletion_reply) refl,
        gets-IsUnknown f.name w' gone,
        deletes_none-IsUnknown f.name w' gone,
        stops-IsUnknown f.name w' gone,
      )

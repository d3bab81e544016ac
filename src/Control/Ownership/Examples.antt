-- ===== src/Control/Ownership/Examples.antt =====
-- An entity claimed by session 1, taken over by session 2.
use Prim.Native.String.{String}
use mumble_server_runtime.Base.{
  ℕ, ◌≡◌, refl, arith, false, some, List, [], ◌∷◌, ok, err, nat_eq, string_eq, ◌==◌,
}
use mumble_server_runtime.Base.Assoc.{get}
use mumble_server_runtime.Control.Ownership.{
  OwnershipRegistry, ClaimRequest, explicit, acquired, acquired_state, new, claim, accept_revision,
  release, ownership_lost, advanced,
}
use mumble_server_runtime.Control.Ownership.Invariant.{IsRegistry, new-IsRegistry, claim-IsRegistry}
use mumble_server_runtime.Control.Ownership.History.{
  RegistryCall, claims, revises, releases, run_registry, run_registry-IsRegistry,
}
use mumble_server_runtime.Control.Ownership.Fencing.{claim-holder, takeover_fences}

abbrev request : ℕ → ℕ → ClaimRequest
request owner token = record {
  entity_id = "entity";
  owner = owner;
  registration_id = owner ∷ [];
  presented_fencing_token = [];
  client_revision = 1;
  new_fencing_token = token ∷ [];
  mode = explicit;
}

abbrev empty : OwnershipRegistry
empty = new 2 2

abbrev first : OwnershipRegistry
first = (claim empty (request 1 7)).0

first-IsRegistry : IsRegistry first
first-IsRegistry = claim-IsRegistry empty (request 1 7) (new-IsRegistry 2 2)

first_held : get first.entries "entity" ≡ some (acquired_state (request 1 7))
unfolding new claim get
first_held = refl

second_acquires :
    (claim first (request 2 8)).1 ≡ ok (acquired (8 ∷ []) (some (acquired_state (request 1 7))))
unfolding new claim get
second_acquires = refl

abbrev calls : List RegistryCall
calls =
    revises "entity" 1 (7 ∷ []) 4 false
    ∷ claims (request 2 8)
    ∷ releases "entity" 2 (2 ∷ []) (8 ∷ [])
    ∷ []

run_registry-IsRegistry_example : IsRegistry (run_registry first calls)
run_registry-IsRegistry_example = run_registry-IsRegistry first calls first-IsRegistry

takeover_fences_example :
    let after = (claim first (request 2 8)).0 in
    (accept_revision after "entity" 1 (7 ∷ []) 5 false ≡ (after, err ownership_lost))
    × (release after "entity" 1 (1 ∷ []) (7 ∷ []) ≡ (after, err ownership_lost))
takeover_fences_example =
    takeover_fences first (request 2 8) (acquired_state (request 1 7)) (8 ∷ [])
      (some (acquired_state (request 1 7))) 1 5 (1 ∷ []) false first_held second_acquires

abbrev new_token : List ℕ
new_token = 8 ∷ []

claim-holder_example :
    let after = (claim first (request 2 8)).0 in
    ((accept_revision after "entity" 2 new_token 5 false).1 ≡ ok advanced)
    × ((release after "entity" 2 (2 ∷ []) new_token).1 ≡ ok (acquired_state (request 2 8)))
    × ((j : String) → ("entity" == j) ≡ false → get after.entries j ≡ get first.entries j)
claim-holder_example =
    claim-holder first (request 2 8) new_token (some (acquired_state (request 1 7))) 5 false
      second_acquires (omega arith)

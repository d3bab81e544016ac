-- ===== src/Control/Ownership/History.antt =====
-- The registry over any sequence of calls.
use Prim.Native.String.{String}
use mumble_server_runtime.Base.{ℕ, Bool, List, [], ◌∷◌}
use mumble_server_runtime.Control.Ownership.{
  OwnershipRegistry, ClaimRequest, claim, accept_revision, release,
}
use mumble_server_runtime.Control.Ownership.Invariant.{
  IsRegistry, claim-IsRegistry, accept_revision-IsRegistry, release-IsRegistry,
}

-- The methods that take `&mut self`, with their arguments.
pub data RegistryCall : Type 0 where
  claims : ClaimRequest → RegistryCall
  revises : String → ℕ → List ℕ → ℕ → Bool → RegistryCall
  releases : String → ℕ → List ℕ → List ℕ → RegistryCall

abbrev pub call_registry : OwnershipRegistry → RegistryCall → OwnershipRegistry
call_registry r (claims request) = (claim r request).0
call_registry r (revises id owner token revision payload_unchanged) =
    (accept_revision r id owner token revision payload_unchanged).0
call_registry r (releases id owner registration token) = (release r id owner registration token).0

unfoldable pub run_registry : OwnershipRegistry → List RegistryCall → OwnershipRegistry
run_registry r [] = r
run_registry r (c ∷ calls) = run_registry (call_registry r c) calls

call_registry-IsRegistry :
    (r : OwnershipRegistry) (c : RegistryCall) → IsRegistry r → IsRegistry (call_registry r c)
call_registry-IsRegistry r (claims request) h = claim-IsRegistry r request h
call_registry-IsRegistry r (revises id owner token revision payload_unchanged) h =
    accept_revision-IsRegistry r id owner token revision payload_unchanged h
call_registry-IsRegistry r (releases id owner registration token) h =
    release-IsRegistry r id owner registration token h

-- Whatever is called, accepted or refused: the registry stays within its limits, over all and of
-- each owner, each entity stands once and under its id, and no two entities share a fencing token.
pub run_registry-IsRegistry :
    (r : OwnershipRegistry) (calls : List RegistryCall)
    → IsRegistry r
    → IsRegistry (run_registry r calls)
unfolding run_registry
run_registry-IsRegistry r [] h = h
run_registry-IsRegistry r (c ∷ calls) h =
    run_registry-IsRegistry (call_registry r c) calls (call_registry-IsRegistry r c h)

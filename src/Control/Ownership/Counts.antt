-- ===== src/Control/Ownership/Counts.antt =====
-- How many entities a session owns, and which fencing tokens live, after an insertion or removal.
use Prim.Native.String.{String}
use mumble_server_runtime.Base.{
  ℕ, ◌+◌, ◌≤◌, ◌≡◌, false, Option, none, some, List, [], ◌∷◌, arith, any, nat_eq, list_eq,
  string_eq, ◌==◌, if◌then◌else◌, Bool-cases, inl, inr,
}
use mumble_server_runtime.Base.Assoc.{Assoc, get, insert, remove, values}
use mumble_server_runtime.Control.Ownership.{OwnershipState, is_owned_by, owned_count, holds_token}

-- One for an entry of `owner`'s.
abbrev pub share : ℕ → Option OwnershipState → ℕ
share owner none = 0
share owner (some state) = if is_owned_by owner state then 1 else 0

owned_count-cons :
    (k : String) (v : OwnershipState) (m : Assoc String OwnershipState) (o : ℕ)
    → owned_count ((k, v) ∷ m) o ≡ share o (some v) + owned_count m o
unfolding owned_count
owned_count-cons k v m o = ground arith

pub owned_count-insert :
    (m : Assoc String OwnershipState) (k : String) (v : OwnershipState) (o : ℕ)
    → owned_count (insert m k v) o + share o (get m k) ≡ owned_count m o + share o (some v)
unfolding get insert
owned_count-insert [] k v o = rw (owned_count-cons k v [] o) (omega arith)
owned_count-insert ((j, w) ∷ m) k v o = elim (Bool-cases (string_eq.beq j k)) [
  | inl same ↦ rw (same, owned_count-cons j v m o, owned_count-cons j w m o) (omega arith)
  | inr other ↦
      rw (other, owned_count-cons j w (insert m k v) o, owned_count-cons j w m o)
        (omega (arith, owned_count-insert m k v o))
]

pub owned_count-remove :
    (m : Assoc String OwnershipState) (k : String) (o : ℕ)
    → owned_count (remove m k) o ≤ owned_count m o
unfolding remove
owned_count-remove [] k o = omega arith
owned_count-remove ((j, w) ∷ m) k o = elim (Bool-cases (string_eq.beq j k)) [
  | inl same ↦ rw (same, owned_count-cons j w m o) (omega (arith, owned_count-remove m k o))
  | inr other ↦
      rw (other, owned_count-cons j w (remove m k) o, owned_count-cons j w m o)
        (omega (arith, owned_count-remove m k o))
]

-- A token that no entry holds is not the token of any entry.
pub token_fresh :
    (m : Assoc String OwnershipState) (token : List ℕ) (k : String) (state : OwnershipState)
    → any (holds_token token) (values m) ≡ false
    → get m k ≡ some state
    → (state.fencing_token == token) ≡ false
unfolding get
token_fresh [] token k state h e = cc
token_fresh ((j, w) ∷ m) token k state h e = ground (arith, token_fresh m token k state)

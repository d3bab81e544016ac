-- ===== src/Shard/View/Composed.antt =====
-- What a view shows once an overlay is layered on top.
use mumble_server_runtime.Base.{ℕ, ◌≡◌, refl, Option, none, some, [], ◌∷◌, nat_eq, arith}
use mumble_server_runtime.Base.Assoc.{Assoc, get, insert, IsDistinct, get-insert}
use mumble_server_runtime.Shard.View.{ShardView, Overlay, extend, compose}

-- The first of two, or else the second.
abbrev pub or_from {ℓ} : {V : Type ℓ} → Option V → Option V → Option V
or_from none under = under
or_from (some v) under = some v

get-extend {ℓ} :
    {V : Type ℓ} (m more : Assoc ℕ V) (j : ℕ)
    → IsDistinct more
    → get (extend m more) j ≡ or_from (get more j) (get m j)
unfolding get extend
get-extend m [] j d = refl
get-extend m ((k, v) ∷ more) j d =
    ground (arith, get-extend (insert m k v) more j d.1, get-insert m k j v)

-- The composed view shows of every channel and every user the overlay's entry, if the overlay has
-- one, and the shared view's otherwise.
pub compose_lem :
    (view : ShardView) (overlay : Overlay) (k : ℕ)
    → IsDistinct overlay.channels
    → IsDistinct overlay.users
    → (get (compose view overlay).channels k
        ≡ or_from (get overlay.channels k) (get view.channels k))
      × (get (compose view overlay).users k ≡ or_from (get overlay.users k) (get view.users k))
unfolding compose
compose_lem view overlay k c u =
    (get-extend view.channels overlay.channels k c, get-extend view.users overlay.users k u)

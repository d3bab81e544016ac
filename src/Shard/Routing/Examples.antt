-- ===== src/Shard/Routing/Examples.antt =====
-- A domain of three, of whom one is muted.
use mumble_server_runtime.Base.{ℕ, ◌≡◌, refl, true, [], ◌∷◌, nat_eq}
use mumble_server_runtime.Base.Assoc.{Assoc}
use mumble_server_runtime.Shard.Routing.{
  Silence, AudioRelation, may_speak, may_hear, compile, is_heard_by, receivers,
}
use mumble_server_runtime.Shard.Routing.Silenced.{compile_silences}

abbrev silence : Silence
silence = record { muted = 200 ∷ []; deafened = [] }

abbrev relation : AudioRelation
relation = record {
  domains = (1, 1 ∷ 2 ∷ 3 ∷ []) ∷ [];
  listeners = (4, 1) ∷ [];
  edges = (1, 2) ∷ [];
}

abbrev session_of : Assoc ℕ ℕ
session_of = (1, 100) ∷ (2, 200) ∷ (3, 300) ∷ (4, 400) ∷ []

first_receivers : receivers (compile relation session_of [] silence) 100 ≡ 200 ∷ 300 ∷ 400 ∷ []
unfolding compile receivers
first_receivers = refl

muted_receivers : receivers (compile relation session_of [] silence) 200 ≡ []
unfolding compile receivers
muted_receivers = refl

heard : is_heard_by (compile relation session_of [] silence) 100 400 ≡ true
unfolding compile is_heard_by
heard = refl

compile_silences_example : (may_speak silence 100 ≡ true) × (may_hear silence 400 ≡ true)
compile_silences_example = compile_silences silence relation session_of [] 100 400 heard

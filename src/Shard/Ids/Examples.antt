-- ===== src/Shard/Ids/Examples.antt =====
-- The theorems on the allocator at concrete calls.
use mumble_server_runtime.Base.{◌≡◌, refl, some, List, [], ◌∷◌, arith}
use mumble_server_runtime.Base.Assoc.{get}
use mumble_server_runtime.Shard.Ids.{
  IdAllocator, connection_of, synthetic, new, channel, session, allocated_channel,
  allocated_session, retire_channel_ids, retain_channels,
}
use mumble_server_runtime.Shard.Ids.Operations.{IsAllocator, new-IsAllocator}
use mumble_server_runtime.Shard.Ids.History.{
  Call, ask_channel, ask_session, retain, retire, run, run-IsAllocator, channel_never_reused,
}

abbrev opening : List Call
opening = ask_channel 1 10 ∷ ask_session (connection_of 4) ∷ ask_channel 1 11 ∷ []

abbrev rest : List Call
rest =
    retire 1 (1 ∷ []) ∷ ask_channel 1 10 ∷ ask_session (synthetic 4) ∷ retain 1 (10 ∷ 11 ∷ []) ∷ []

opened : IdAllocator
unfolding run channel session
opened = run new opening

opened_reads :
    (allocated_channel opened 1 10 ≡ some 1)
    × (allocated_channel opened 1 11 ≡ some 2)
    × (allocated_session opened (connection_of 4) ≡ some 1)
unfolding opened allocated_channel allocated_session get
opened_reads = (refl, refl, refl)

-- The channel that comes back has a new id.
later_reads :
    (allocated_channel (run opened rest) 1 10 ≡ some 3)
    × (allocated_channel (run opened rest) 1 11 ≡ some 2)
unfolding opened run channel session allocated_channel get retire_channel_ids retain_channels
later_reads = (refl, refl)

opened-IsAllocator : IsAllocator opened
unfolding opened
opened-IsAllocator = run-IsAllocator new opening new-IsAllocator

run-IsAllocator_example : IsAllocator (run new opening)
run-IsAllocator_example = run-IsAllocator new opening new-IsAllocator

channel_never_reused_example : allocated_channel opened 1 11 ≡ some 2
unfolding opened
channel_never_reused_example =
    channel_never_reused opened rest 1 11 2 opened-IsAllocator (omega arith) later_reads.1

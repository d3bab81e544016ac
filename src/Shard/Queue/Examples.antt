-- ===== src/Shard/Queue/Examples.antt =====
-- A transition of two messages, offered to a channel of two slots.
use mumble_server_runtime.Base.{[], ◌∷◌}
use mumble_server_runtime.Shard.Queue.{try_send_all}
use mumble_server_runtime.Shard.Queue.Admission.{Outcome, try_send_all_lem}
use mumble_server_runtime.Shard.Queue.Slots.{slots, one_free}

try_send_all_lem_example :
    let (after, result) = try_send_all slots one_free (8 ∷ 9 ∷ []) in
    Outcome slots one_free (8 ∷ 9 ∷ []) after result
try_send_all_lem_example = try_send_all_lem slots one_free (8 ∷ 9 ∷ [])

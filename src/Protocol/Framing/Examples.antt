-- ===== src/Protocol/Framing/Examples.antt =====
-- A `UserState` frame of three bytes.
use mumble_server_runtime.Base.{
  ℕ, ◌≡◌, refl, some, none, List, [], ◌∷◌, ◌++◌, ok, arith, All, take, ◌<◌,
}
use mumble_server_runtime.Protocol.Framing.{Frame, parse_frame, write_frame, total_len}
use mumble_server_runtime.Protocol.Framing.RoundTrip.{
  parse_frame-write_frame, parse_frame-partial, write_frame-parse_frame,
}

abbrev state_frame : Frame
state_frame = record { message_type = 9; payload = 1 ∷ 2 ∷ 3 ∷ [] }

abbrev on_wire : List ℕ
on_wire = 0 ∷ 9 ∷ 0 ∷ 0 ∷ 0 ∷ 3 ∷ 1 ∷ 2 ∷ 3 ∷ []

written : write_frame 9 (1 ∷ 2 ∷ 3 ∷ []) [] ≡ ok on_wire
unfolding write_frame
written = refl

parsed : parse_frame (on_wire ++ 0 ∷ 5 ∷ []) ≡ ok (some state_frame)
unfolding parse_frame
parsed = refl

parse_frame-write_frame_example : parse_frame (on_wire ++ 0 ∷ 5 ∷ []) ≡ ok (some state_frame)
parse_frame-write_frame_example =
    parse_frame-write_frame 9 (1 ∷ 2 ∷ 3 ∷ []) on_wire (0 ∷ 5 ∷ []) (omega arith) written

parse_frame-partial_example : parse_frame (take 8 on_wire) ≡ ok none
parse_frame-partial_example = parse_frame-partial 9 (1 ∷ 2 ∷ 3 ∷ []) on_wire 8 written (omega arith)

bytes_small : All (λ b. b < 256) (on_wire ++ 0 ∷ 5 ∷ [])
bytes_small = ground arith

write_frame-parse_frame_example :
    write_frame 9 (1 ∷ 2 ∷ 3 ∷ []) [] ≡ ok (take (total_len state_frame) (on_wire ++ 0 ∷ 5 ∷ []))
write_frame-parse_frame_example =
    write_frame-parse_frame (on_wire ++ 0 ∷ 5 ∷ []) state_frame bytes_small parsed

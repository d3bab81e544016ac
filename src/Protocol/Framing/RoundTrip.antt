-- ===== src/Protocol/Framing/RoundTrip.antt =====
-- Parsing undoes writing, on the front of any buffer, and writing undoes parsing.
use mumble_server_runtime.Base.{
  ℕ, zero, suc, length-take, take-append, length-append, ◌+◌, ◌*◌, ◌/◌, ◌%◌, ◌≤◌, ◌<◌, ◌≡◌, refl,
  ap, sym, ◌∙◌, false, none, some, List, [], ◌∷◌, ◌++◌, ok, ltb, leb, length, take, arith, All,
}
use mumble_server_runtime.Protocol.Framing.{
  Frame, total_len, max_payload_len, parse_frame, parse_payload, write_frame, from_be_bytes,
  u16_to_be_bytes, u32_to_be_bytes,
}

be_bytes :
    (n : ℕ)
    → n < 4294967296
    → from_be_bytes (n / 16777216 % 256) (n / 65536 % 256) (n / 256 % 256) (n % 256) ≡ n
be_bytes n h = omega arith

parse_payload-append :
    (t : ℕ) (payload rest : List ℕ)
    → length payload ≤ max_payload_len
    → parse_payload t (length payload) (payload ++ rest)
      ≡ ok (some (record { message_type = t; payload = payload }))
unfolding parse_payload
parse_payload-append t payload rest h =
    ground (arith, length-append payload rest, take-append payload rest)

abbrev encoded : ℕ → List ℕ → List ℕ
encoded t payload = u16_to_be_bytes t ++ (u32_to_be_bytes (length payload) ++ payload)

write_frame-ok :
    (t : ℕ) (payload out written : List ℕ)
    → write_frame t payload out ≡ ok written
    → (length payload ≤ max_payload_len) × (written ≡ out ++ encoded t payload)
unfolding write_frame
write_frame-ok t payload out written e = ground arith

-- What was written is parsed back, whatever follows it in the buffer, for a message type of 16 bits.
pub parse_frame-write_frame :
    (t : ℕ) (payload written rest : List ℕ)
    → t < 65536
    → write_frame t payload [] ≡ ok written
    → parse_frame (written ++ rest) ≡ ok (some (record { message_type = t; payload = payload }))
unfolding parse_frame
parse_frame-write_frame t payload written rest h e =
    let (small, w) = write_frame-ok t payload [] written e in
    let code : t / 256 % 256 * 256 + t % 256 ≡ t = omega arith in
    rw (w, code, be_bytes (length payload) (omega arith))
      (parse_payload-append t payload rest small)

parse_payload-partial :
    (t : ℕ) (payload : List ℕ) (n : ℕ)
    → length payload ≤ max_payload_len
    → n < length payload
    → parse_payload t (length payload) (take n payload) ≡ ok none
unfolding parse_payload
parse_payload-partial t payload n h l = ground (arith, length-take n payload)

encoded-partial :
    (t : ℕ) (payload : List ℕ) (n : ℕ)
    → length payload ≤ max_payload_len
    → n < 6 + length payload
    → parse_frame (take n (encoded t payload)) ≡ ok none
unfolding parse_frame
encoded-partial t payload zero h l = refl
encoded-partial t payload (suc zero) h l = refl
encoded-partial t payload (suc (suc zero)) h l = refl
encoded-partial t payload (suc (suc (suc zero))) h l = refl
encoded-partial t payload (suc (suc (suc (suc zero)))) h l = refl
encoded-partial t payload (suc (suc (suc (suc (suc zero))))) h l = refl
encoded-partial t payload (suc (suc (suc (suc (suc (suc n)))))) h l =
    rw (be_bytes (length payload) (omega arith))
      (parse_payload-partial (t / 256 % 256 * 256 + t % 256) payload n h (omega arith))

-- A part of a written frame that is not all of it asks for more bytes.
pub parse_frame-partial :
    (t : ℕ) (payload written : List ℕ) (n : ℕ)
    → write_frame t payload [] ≡ ok written
    → n < length written
    → parse_frame (take n written) ≡ ok none
parse_frame-partial t payload written n e less =
    let (small, w) = write_frame-ok t payload [] written e in
    let l : n < 6 + length payload = omega (arith, ap length w) in
    rw w (encoded-partial t payload n small l)

parse_payload-some :
    (t declared : ℕ) (rest : List ℕ) (f : Frame)
    → parse_payload t declared rest ≡ ok (some f)
    → (f ≡ record { message_type = t; payload = take declared rest })
      × (declared ≤ length rest)
      × (declared ≤ max_payload_len)
unfolding parse_payload
parse_payload-some t declared rest f e = ground arith

take_header :
    (a b c d x y n : ℕ) (rest : List ℕ)
    → take (6 + n) (a ∷ b ∷ c ∷ d ∷ x ∷ y ∷ rest) ≡ a ∷ b ∷ c ∷ d ∷ x ∷ y ∷ take n rest
take_header a b c d x y n rest =
    let six : 6 + n ≡ suc (suc (suc (suc (suc (suc n))))) = omega arith in
    ap (λ k. take k (a ∷ b ∷ c ∷ d ∷ x ∷ y ∷ rest)) six

write_parsed :
    (t1 t0 b3 b2 b1 b0 : ℕ) (rest : List ℕ)
    → let declared = from_be_bytes b3 b2 b1 b0 in
      t1 < 256
      → t0 < 256
      → b3 < 256
      → b2 < 256
      → b1 < 256
      → b0 < 256
      → declared ≤ length rest
      → declared ≤ max_payload_len
      → write_frame (t1 * 256 + t0) (take declared rest) []
        ≡ ok (t1 ∷ t0 ∷ b3 ∷ b2 ∷ b1 ∷ b0 ∷ take declared rest)
unfolding write_frame
write_parsed t1 t0 b3 b2 b1 b0 rest h1 h0 k3 k2 k1 k0 enough small =
    let declared = from_be_bytes b3 b2 b1 b0 in
    let l : length (take declared rest) ≡ declared = omega (arith, length-take declared rest) in
    let e1 : (t1 * 256 + t0) / 256 % 256 ≡ t1 = omega arith in
    let e0 : (t1 * 256 + t0) % 256 ≡ t0 = omega arith in
    let d3 : declared / 16777216 % 256 ≡ b3 = omega arith in
    let d2 : declared / 65536 % 256 ≡ b2 = omega arith in
    let d1 : declared / 256 % 256 ≡ b1 = omega arith in
    let d0 : declared % 256 ≡ b0 = omega arith in
    let fits : leb 4294967296 declared ≡ false = ground arith in
    let allowed : ltb max_payload_len declared ≡ false = ground arith in
    rw (l, e1, e0, d3, d2, d1, d0, fits, allowed)

-- Writing a parsed frame again gives the very bytes that it took from the front of the buffer.
pub write_frame-parse_frame :
    (buf : List ℕ) (f : Frame)
    → All (λ b. b < 256) buf
    → parse_frame buf ≡ ok (some f)
    → write_frame f.message_type f.payload [] ≡ ok (take (total_len f) buf)
unfolding parse_frame total_len
write_frame-parse_frame (t1 ∷ t0 ∷ b3 ∷ b2 ∷ b1 ∷ b0 ∷ rest) f
      (h1, (h0, (k3, (k2, (k1, (k0, all)))))) e =
    let declared = from_be_bytes b3 b2 b1 b0 in
    let (r, enough, small) = parse_payload-some (t1 * 256 + t0) declared rest f e in
    let l : length (take declared rest) ≡ declared = omega (arith, length-take declared rest) in
    rw (r, l)
      (write_parsed t1 t0 b3 b2 b1 b0 rest h1 h0 k3 k2 k1 k0 enough small
        ∙ ap ok (sym (take_header t1 t0 b3 b2 b1 b0 declared rest)))
write_frame-parse_frame [] f bytes e = ground arith
write_frame-parse_frame (a ∷ []) f bytes e = ground arith
write_frame-parse_frame (a ∷ b ∷ []) f bytes e = ground arith
write_frame-parse_frame (a ∷ b ∷ c ∷ []) f bytes e = ground arith
write_frame-parse_frame (a ∷ b ∷ c ∷ d ∷ []) f bytes e = ground arith
write_frame-parse_frame (a ∷ b ∷ c ∷ d ∷ x ∷ []) f bytes e = ground arith

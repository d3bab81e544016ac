-- ===== src/Crypto/Ocb2/Lockstep.antt =====
-- The loops of encryption and decryption, block by block.
use mumble_server_runtime.Base.{
  ℕ, zero, suc, ◌+◌, ◌-◌, ◌≤◌, ◌<◌, ◌≡◌, refl, sym, ap, ◌∙◌, arith, Bool, true, false, ◌&&◌, List,
  [], ◌++◌, append_assoc, append-nil, ltb, leb, length, length-append, take, drop, length-take,
  length-drop, take-append, drop-append, Bool-cases, inl, inr, if◌then◌else◌,
}
use mumble_server_runtime.Crypto.Ocb2.{
  Aes128, Pass, block_size, all_zero, xor, times2, flip_first, encrypt_turn, decrypt_turn, loop,
}
use mumble_server_runtime.Crypto.Ocb2.Blocks.{
  length-xor, length-times2, length-flip_first, xor_twice, flip_first-xor,
}

-- What the code relies on of the `aes` crate: blocks are decrypted to what was encrypted, and an
-- encrypted block is a block.
pub record IsCipher (aes : Aes128) : Type 0 where
  pub opens :
      (block : List ℕ) → length block ≡ 16 → aes.decrypt_block (aes.encrypt_block block) ≡ block
  pub length_encrypted :
      (block : List ℕ) → length block ≡ 16 → length (aes.encrypt_block block) ≡ 16

-- The block that the attack on XEX* needs: all zeros but the last byte, with one block or less after it.
abbrev pub is_critical : List ℕ → Bool
is_critical rest =
    leb (length rest - block_size) block_size && all_zero (take 15 (take block_size rest))

-- The plain data with one bit altered where encryption may modify it, block by block.
unfoldable pub altered : Bool → ℕ → List ℕ → List ℕ
unfolding flip_first
altered modify zero rest = rest
altered modify (suc fuel) rest =
    let more = altered modify fuel (drop block_size rest) in
    if ltb block_size (length rest)
    then flip_first (is_critical rest && modify) (take block_size rest) ++ more
    else rest

abbrev pass : List ℕ → List ℕ → List ℕ → List ℕ → Bool → Pass
pass delta checksum output rest authentic = record {
  delta = delta;
  checksum = checksum;
  output = output;
  rest = rest;
  authentic = authentic;
}

taken : (block rest : List ℕ) → length block ≡ 16 → take 16 (block ++ rest) ≡ block
taken block rest e = ap (λ n. take n (block ++ rest)) (sym e) ∙ take-append block rest

dropped : (block rest : List ℕ) → length block ≡ 16 → drop 16 (block ++ rest) ≡ rest
dropped block rest e = ap (λ n. drop n (block ++ rest)) (sym e) ∙ drop-append block rest

pub length-xor_blocks : (xs ys : List ℕ) → length xs ≡ 16 → length ys ≡ 16 → length (xor xs ys) ≡ 16
length-xor_blocks xs ys p q = omega (arith, length-xor xs ys)

loop_stops :
    (aes : Aes128) (turn : Pass → Pass) (fuel : ℕ) (p : Pass)
    → ltb 16 (length p.rest) ≡ false
    → loop aes turn fuel p ≡ p
unfolding loop
loop_stops aes turn zero p h = refl
loop_stops aes turn (suc fuel) p h = rw (h, loop) refl

loop_turns :
    (aes : Aes128) (turn : Pass → Pass) (fuel : ℕ) (p : Pass)
    → ltb 16 (length p.rest) ≡ true
    → loop aes turn (suc fuel) p ≡ loop aes turn fuel (turn p)
unfolding loop
loop_turns aes turn fuel p h = rw (h, loop) refl

module _ (aes : Aes128) (cipher : IsCipher aes) where
  -- A block on the wire.
  abbrev sealed : List ℕ → Bool → List ℕ → List ℕ
  sealed delta f block = xor delta (aes.encrypt_block (flip_first f (xor delta block)))

  masked :
      (delta block : List ℕ) (f : Bool)
      → length delta ≡ 16
      → length block ≡ 16
      → length (flip_first f (xor delta block)) ≡ 16
  masked delta block f p q =
      length-flip_first f (xor delta block) ∙ length-xor_blocks delta block p q

  length-sealed :
      (delta block : List ℕ) (f : Bool)
      → length delta ≡ 16
      → length block ≡ 16
      → length (sealed delta f block) ≡ 16
  length-sealed delta block f p q =
      length-xor_blocks delta _ p (cipher.length_encrypted _ (masked delta block f p q))

  decoded :
      (delta block : List ℕ) (f : Bool)
      → length delta ≡ 16
      → length block ≡ 16
      → xor delta (aes.decrypt_block (xor delta (sealed delta f block))) ≡ flip_first f block
  decoded delta block f p q =
      let inner = flip_first f (xor delta block) in
      let whole = masked delta block f p q in
      ap (λ b. xor delta (aes.decrypt_block b))
        (xor_twice delta (aes.encrypt_block inner)
          (omega (arith, cipher.length_encrypted inner whole, p)))
      ∙ ap (xor delta) (cipher.opens inner whole ∙ flip_first-xor f delta block)
      ∙ xor_twice delta (flip_first f block) (omega (arith, length-flip_first f block, p, q))

  decrypt_turn-sealed :
      (delta checksum output block rest : List ℕ) (f authentic : Bool)
      → length (times2 delta) ≡ 16
      → length block ≡ 16
      → decrypt_turn aes
          (pass delta checksum output (sealed (times2 delta) f block ++ rest) authentic)
        ≡ pass
            (times2 delta)
            (flip_first f (xor checksum block))
            (output ++ flip_first f block)
            rest
            authentic
  unfolding decrypt_turn
  decrypt_turn-sealed delta checksum output block rest f authentic p q =
      let wire = sealed (times2 delta) f block in
      let n = length-sealed (times2 delta) block f p q in
      rw
        (
          taken wire rest n,
          dropped wire rest n,
          decoded (times2 delta) block f p q,
          flip_first-xor f checksum block,
        )
        refl

  -- What the loop of encryption leaves, and that the loop of decryption, given what was sent and as
  -- much more as is left, takes the same deltas and checksums and gives the altered plain data.
  pub record Lockstep (modify : Bool) (fuel : ℕ) (p after : Pass) : Type 0 where
    pub sent : List ℕ
    pub opened : List ℕ
    pub output : after.output ≡ p.output ++ sent
    pub size : length sent + length after.rest ≡ length p.rest
    pub short : length after.rest ≤ 16
    pub delta : length after.delta ≡ 16
    pub checksum : length p.checksum ≡ 16 → length after.checksum ≡ 16
    pub plain : opened ++ after.rest ≡ altered modify fuel p.rest
    pub received :
        (before last : List ℕ) (authentic : Bool)
        → length last ≡ length after.rest
        → loop aes (decrypt_turn aes) fuel (pass p.delta p.checksum before (sent ++ last) authentic)
          ≡ pass after.delta after.checksum (before ++ opened) last authentic

  ended :
      (modify : Bool) (fuel : ℕ) (p : Pass)
      → length p.delta ≡ 16
      → ltb 16 (length p.rest) ≡ false
      → altered modify fuel p.rest ≡ p.rest
      → Lockstep modify fuel p p
  ended modify fuel p d h same = record {
    sent = [];
    opened = [];
    output = sym (append-nil p.output);
    size = omega arith;
    short = at_most (length p.rest) h;
    delta = d;
    checksum = λ h. h;
    plain = sym same;
    received = λ before last authentic e.
        loop_stops aes (decrypt_turn aes) fuel (pass p.delta p.checksum before last authentic)
          (ap (ltb 16) e ∙ h)
        ∙ ap (λ o. pass p.delta p.checksum o last authentic) (sym (append-nil before));
  }
    where
      at_most : (n : ℕ) → ltb 16 n ≡ false → n ≤ 16
      at_most n h = ground arith

  one_more :
      (modify : Bool) (fuel : ℕ) (p after : Pass)
      → length p.delta ≡ 16
      → ltb 16 (length p.rest) ≡ true
      → Lockstep modify fuel (encrypt_turn aes modify p) after
      → Lockstep modify (suc fuel) p after
  unfolding encrypt_turn altered
  one_more modify fuel p after d many r =
      let block = take 16 p.rest in
      let f = is_critical p.rest && modify in
      let q = length-times2 p.delta ∙ d in
      let over = above (length p.rest) many in
      let n : length block ≡ 16 = omega (arith, length-take 16 p.rest, over) in
      let wire = sealed (times2 p.delta) f block in
      let wired = length-sealed (times2 p.delta) block f q n in
      let left : length r.sent + length after.rest ≡ length p.rest - 16 =
        r.size ∙ length-drop 16 p.rest in
      record {
        sent = wire ++ r.sent;
        opened = flip_first f block ++ r.opened;
        output = r.output ∙ append_assoc p.output wire r.sent;
        size = omega (arith, length-append wire r.sent, wired, left, over);
        short = r.short;
        delta = r.delta;
        checksum = λ h. r.checksum (masked p.checksum block f h n);
        plain =
            append_assoc (flip_first f block) r.opened after.rest
            ∙ ap (λ t. flip_first f block ++ t) r.plain
            ∙ sym (rw (many, altered) refl);
        received = λ before last authentic e.
            let rest = r.sent ++ last in
            let p' = pass p.delta p.checksum before (wire ++ rest) authentic in
            let long : ltb 16 (length (wire ++ rest)) ≡ true = below (length (wire ++ rest)) (
              omega (
                arith,
                length-append wire rest,
                length-append r.sent last,
                wired,
                left,
                over,
                e,
              )) in
            ap
              (λ l.
                loop aes (decrypt_turn aes) (suc fuel) (pass p.delta p.checksum before l authentic))
              (append_assoc wire r.sent last)
            ∙ loop_turns aes (decrypt_turn aes) fuel p' long
            ∙ ap (loop aes (decrypt_turn aes) fuel)
                (decrypt_turn-sealed p.delta p.checksum before block rest f authentic q n)
            ∙ r.received (before ++ flip_first f block) last authentic e
            ∙ ap (λ o. pass after.delta after.checksum o last authentic)
                (append_assoc before (flip_first f block) r.opened);
      }
    where
      above : (n : ℕ) → ltb 16 n ≡ true → 16 < n
      above n h = ground arith

      below : (n : ℕ) → 16 < n → ltb 16 n ≡ true
      below n h = ground arith

  pub loop-Lockstep :
      (modify : Bool) (fuel : ℕ) (p : Pass)
      → length p.rest ≤ fuel
      → length p.delta ≡ 16
      → Lockstep modify fuel p (loop aes (encrypt_turn aes modify) fuel p)
  unfolding loop altered encrypt_turn
  loop-Lockstep modify zero p enough d = ended modify zero p d (none (length p.rest) enough) refl
    where
      none : (n : ℕ) → n ≤ 0 → ltb 16 n ≡ false
      none n h = ground arith
  loop-Lockstep modify (suc fuel) p enough d = elim (Bool-cases (ltb block_size (length p.rest))) [
    | inr few ↦ rw (few, loop) (ended modify (suc fuel) p d few (rw (few, altered) refl))
    | inl many ↦
        rw (many, loop)
          (one_more modify fuel p _ d many (
            loop-Lockstep modify fuel (encrypt_turn aes modify p) (shorter p enough)
              (length-times2 p.delta ∙ d)))
  ]
    where
      shorter :
          (p : Pass) → length p.rest ≤ suc fuel → length (encrypt_turn aes modify p).rest ≤ fuel
      shorter p enough = omega (arith, length-drop 16 p.rest, enough)

-- ===== src/Crypto/Ocb2.antt =====
-- runtime/crates/crypto/src/ocb2.rs: OCB2 with the XEX* mitigations. AES-128 is the `aes` crate's, a
-- parameter: a block cipher on blocks, which are lists of 16 bytes.
pub mod Blocks
pub mod Lockstep
pub mod RoundTrip
pub mod State
mod Examples
use Prim.Native.Nat.{bit_or, bit_xor}
use mumble_server_runtime.Base.{
  ℕ, zero, suc, ◌+◌, ◌-◌, ◌*◌, ◌/◌, ◌%◌, Bool, true, false, not, ◌&&◌, List, [], ◌∷◌, ◌++◌, ltb,
  leb, length, take, drop, replicate, list_beq, nat_eq, ◌==◌, if◌then◌else◌,
}

abbrev pub block_size : ℕ
block_size = 16

pub record Aes128 : Type 0 where
  pub encrypt_block : List ℕ → List ℕ
  pub decrypt_block : List ℕ → List ℕ

unfoldable pub xor : List ℕ → List ℕ → List ℕ
xor (x ∷ xs) (y ∷ ys) = bit_xor x y ∷ xor xs ys
xor _ _ = []

-- The shift by one bit, with the reduction at the last byte.
shift : List ℕ → ℕ → List ℕ
shift [] carry = []
shift (x ∷ []) carry = bit_xor (x * 2 % 256) (carry * 135) ∷ []
shift (x ∷ y ∷ rest) carry = bit_or (x * 2 % 256) (y / 128) ∷ shift (y ∷ rest) carry

unfoldable pub times2 : List ℕ → List ℕ
unfolding shift
times2 [] = []
times2 (x ∷ rest) = shift (x ∷ rest) (x / 128)

unfoldable pub times3 : List ℕ → List ℕ
unfolding xor times2
times3 block = xor block (times2 block)

be_bytes : ℕ → ℕ → List ℕ
be_bytes zero n = []
be_bytes (suc k) n = be_bytes k (n / 256) ++ n % 256 ∷ []

-- `to_be_bytes` of a `u128`, of which a length in bits never fills the top.
unfoldable pub length_block : ℕ → List ℕ
unfolding be_bytes
length_block len = be_bytes block_size (len * 8)

abbrev all_zero : List ℕ → Bool
all_zero [] = true
all_zero (x ∷ xs) = (x == 0) && all_zero xs

-- `block[0] ^= 1`
pub flip_first : Bool → List ℕ → List ℕ
flip_first true (x ∷ xs) = bit_xor x 1 ∷ xs
flip_first _ block = block

-- What the loops carry: `rest` is the data from `offset` on.
pub record Pass : Type 0 where
  pub delta : List ℕ
  pub checksum : List ℕ
  pub output : List ℕ
  pub rest : List ℕ
  pub authentic : Bool

pub record Sealed : Type 0 where
  pub authentic : Bool
  pub output : List ℕ
  pub tag : List ℕ

module _ (aes : Aes128) where
  -- One turn of the loop of `ocb_encrypt`.
  pub encrypt_turn : Bool → Pass → Pass
  unfolding xor times2 flip_first
  encrypt_turn modify p =
      let block = take block_size p.rest in
      let critical = leb (length p.rest - block_size) block_size && all_zero (take 15 block) in
      let flip_a_bit = critical && modify in
      let delta = times2 p.delta in
      record {
        delta = delta;
        checksum = flip_first flip_a_bit (xor p.checksum block);
        output =
            p.output ++ xor delta (aes.encrypt_block (flip_first flip_a_bit (xor delta block)));
        rest = drop block_size p.rest;
        authentic = p.authentic && not (critical && not modify);
      }

  pub decrypt_turn : Pass → Pass
  unfolding xor times2
  decrypt_turn p =
      let block = take block_size p.rest in
      let delta = times2 p.delta in
      let decoded = xor delta (aes.decrypt_block (xor delta block)) in
      record {
        delta = delta;
        checksum = xor p.checksum decoded;
        output = p.output ++ decoded;
        rest = drop block_size p.rest;
        authentic = p.authentic;
      }

  -- `while remaining > BLOCK_SIZE`; a turn takes a block, so the length is fuel enough.
  pub loop : (Pass → Pass) → ℕ → Pass → Pass
  loop turn zero p = p
  loop turn (suc fuel) p = elim (ltb block_size (length p.rest)) [
    | true ↦ loop turn fuel (turn p)
    | false ↦ p
  ]

  start : List ℕ → List ℕ → Pass
  start message nonce = record {
    delta = aes.encrypt_block nonce;
    checksum = replicate block_size 0;
    output = [];
    rest = message;
    authentic = true;
  }

  unfoldable pub ocb_encrypt : List ℕ → List ℕ → Bool → Sealed
  unfolding encrypt_turn loop start xor times2 times3 length_block
  ocb_encrypt plain nonce modify =
      let p = loop (encrypt_turn modify) (length plain) (start plain nonce) in
      let remaining = length p.rest in
      let delta = times2 p.delta in
      let pad = aes.encrypt_block (xor (length_block remaining) delta) in
      let tail = p.rest ++ drop remaining pad in
      let checksum = xor p.checksum tail in
      record {
        authentic = p.authentic;
        output = p.output ++ take remaining (xor pad tail);
        tag = aes.encrypt_block (xor (times3 delta) checksum);
      }

  unfoldable pub ocb_decrypt : List ℕ → List ℕ → Sealed
  unfolding decrypt_turn loop start xor times2 times3 length_block
  ocb_decrypt encrypted nonce =
      let p = loop decrypt_turn (length encrypted) (start encrypted nonce) in
      let remaining = length p.rest in
      let delta = times2 p.delta in
      let pad = aes.encrypt_block (xor (length_block remaining) delta) in
      let tail = xor (p.rest ++ replicate (block_size - remaining) 0) pad in
      let checksum = xor p.checksum tail in
      record {
        authentic = not (list_beq (take 15 tail) (take 15 delta));
        output = p.output ++ take remaining tail;
        tag = aes.encrypt_block (xor (times3 delta) checksum);
      }

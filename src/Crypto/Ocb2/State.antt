-- ===== src/Crypto/Ocb2/State.antt =====
-- runtime/crates/crypto/src/ocb2.rs: the state of one direction pair, with IV recovery and the replay
-- history. A signed difference of bytes is kept 512 higher, as a natural number.
pub mod Replays
pub mod InOrder
mod Examples
use mumble_server_runtime.Base.{
  ℕ, zero, suc, ◌+◌, ◌-◌, ◌*◌, ◌/◌, ◌%◌, Bool, true, false, not, ◌&&◌, ◌||◌, Option, none, some,
  List, [], ◌∷◌, ◌++◌, ltb, leb, length, take, drop, replicate, set, get_or, list_beq, nat_eq, ◌==◌,
  if◌then◌else◌,
}
use mumble_server_runtime.Base.Int.{ℤ, pos, negsuc}
use mumble_server_runtime.Crypto.Iv.{increment_iv, increment_iv_from, decrement_iv_from, apply_stat}
use mumble_server_runtime.Crypto.Ocb2.{Aes128, Sealed, ocb_encrypt, ocb_decrypt}

pub record CryptState : Type 0 where
  pub encrypt_iv : List ℕ
  pub decrypt_iv : List ℕ
  pub decrypt_history : List ℕ
  pub good : ℕ
  pub late : ℕ
  pub lost : ℕ

unfoldable pub new : List ℕ → List ℕ → CryptState
new encrypt_iv decrypt_iv = record {
  encrypt_iv = encrypt_iv;
  decrypt_iv = decrypt_iv;
  decrypt_history = replicate 256 0;
  good = 0;
  late = 0;
  lost = 0;
}

pub set_encrypt_iv : CryptState → List ℕ → CryptState
set_encrypt_iv s iv = record s { encrypt_iv = iv }

pub set_decrypt_iv : CryptState → List ℕ → CryptState
set_decrypt_iv s iv = record s { decrypt_iv = iv }

-- What the header's byte makes of the IV, and whether the history is asked.
pub record Recovery : Type 0 where
  pub iv : List ℕ
  pub late : ℤ
  pub lost : ℤ
  pub restore : Bool
  pub out_of_order : Bool

-- `ivbyte as i32 - decrypt_iv[0] as i32`, brought between -128 and 128, plus 512.
abbrev pub difference : ℕ → ℕ → ℕ
difference ivbyte current =
    let raw = 512 + ivbyte - current in
    if ltb 640 raw then raw - 256 else if ltb raw 384 then raw + 256 else raw

in_order : ℕ → ℕ → List ℕ → Option Recovery
unfolding increment_iv_from
in_order ivbyte current rest =
    if ltb current ivbyte
    then some (record {
      iv = ivbyte ∷ rest;
      late = pos 0;
      lost = pos 0;
      restore = false;
      out_of_order = false;
    })
    else if ltb ivbyte current
    then some (record {
      iv = increment_iv_from (ivbyte ∷ rest) 1;
      late = pos 0;
      lost = pos 0;
      restore = false;
      out_of_order = false;
    })
    else none

out_of_order : ℕ → ℕ → List ℕ → Option Recovery
unfolding increment_iv_from decrement_iv_from
out_of_order ivbyte current rest =
    let diff = difference ivbyte current in
    let recent = ltb 482 diff && ltb diff 512 in
    let ahead = ltb 512 diff in
    if ltb ivbyte current && recent
    then some (record {
      iv = ivbyte ∷ rest;
      late = pos 1;
      lost = negsuc 0;
      restore = true;
      out_of_order = true;
    })
    else if ltb current ivbyte && recent
    then some (record {
      iv = decrement_iv_from (ivbyte ∷ rest) 1;
      late = pos 1;
      lost = negsuc 0;
      restore = true;
      out_of_order = true;
    })
    else if ltb current ivbyte && ahead
    then some (record {
      iv = ivbyte ∷ rest;
      late = pos 0;
      lost = pos (ivbyte - current - 1);
      restore = false;
      out_of_order = true;
    })
    else if ltb ivbyte current && ahead
    then some (record {
      iv = increment_iv_from (ivbyte ∷ rest) 1;
      late = pos 0;
      lost = pos (256 - current + ivbyte - 1);
      restore = false;
      out_of_order = true;
    })
    else none

unfoldable pub recover : List ℕ → ℕ → Option Recovery
unfolding in_order out_of_order
recover [] ivbyte = none
recover (current ∷ rest) ivbyte =
    if (current + 1) % 256 == ivbyte
    then in_order ivbyte current rest
    else out_of_order ivbyte current rest

-- `decrypt_history[iv[0]] == iv[1]`
abbrev pub is_replay : List ℕ → List ℕ → Bool
is_replay history iv = get_or history (get_or iv 0 0) 0 == get_or iv 1 0

module _ (aes : Aes128) where
  -- The IV, the counters and the history of a packet that decrypts.
  commit : CryptState → Recovery → CryptState
  unfolding apply_stat
  commit s r = record {
    encrypt_iv = s.encrypt_iv;
    decrypt_iv = if r.restore then s.decrypt_iv else r.iv;
    decrypt_history = set s.decrypt_history (get_or r.iv 0 0) (get_or r.iv 1 0);
    good = (s.good + 1) % 4294967296;
    late = apply_stat s.late r.late;
    lost = apply_stat s.lost r.lost;
  }

  decrypt_with : CryptState → List ℕ → List ℕ → Option Recovery → CryptState × Option (List ℕ)
  unfolding commit ocb_decrypt
  decrypt_with s header ciphertext none = (s, none)
  decrypt_with s header ciphertext (some r) =
      let opened = ocb_decrypt aes ciphertext r.iv in
      if r.out_of_order && is_replay s.decrypt_history r.iv
      then (s, none)
      else if not opened.authentic || not (list_beq (take 3 opened.tag) (drop 1 header))
      then (s, none)
      else (commit s r, some opened.output)

  unfoldable pub decrypt : CryptState → List ℕ → CryptState × Option (List ℕ)
  unfolding decrypt_with recover
  decrypt s source =
      let header = take 4 source in
      if ltb (length source) 4
      then (s, none)
      else decrypt_with s header (drop 4 source) (recover s.decrypt_iv (get_or header 0 0))

  unfoldable pub encrypt : CryptState → List ℕ → CryptState × Option (List ℕ)
  unfolding increment_iv ocb_encrypt
  encrypt s plain =
      let iv = increment_iv s.encrypt_iv in
      let sealed = ocb_encrypt aes plain iv true in
      (
        record s { encrypt_iv = iv },
        if sealed.authentic
            then some (get_or iv 0 0 ∷ (take 3 sealed.tag ++ sealed.output))
            else none,
      )

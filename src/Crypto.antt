-- ===== src/Crypto.antt =====
-- src/crypto.rs: WinZip AES-256 (AE-2) in place in one buffer. PBKDF2, the AES-CTR key stream and
-- HMAC-SHA1 are crates: they are parameters here, with what their documentation promises.
pub mod Envelope
pub mod Open
use tzip.Prelude.{
  ℕ, ◌+◌, ◌-◌, ◌≤◌, ◌≡◌, ◌==◌, not, Bool, Option, none, some, List, [], ◌∷◌, ◌++◌, if◌then◌else◌,
  length, take, drop, replicate, ◌>>=◌, ◌>>◌, guard,
}
use tzip.Bytes.{Bytes, copy_from_slice, slice}

abbrev pub salt_len : ℕ
salt_len = 16

abbrev pub verify_len : ℕ
verify_len = 2

abbrev pub mac_len : ℕ
mac_len = 10

abbrev pub key_len : ℕ
key_len = 32

abbrev pub mac_key_len : ℕ
mac_key_len = 32

abbrev pub ae2_overhead : ℕ
ae2_overhead = salt_len + verify_len + mac_len

pub record Primitives : Type 0 where
  -- password, salt, rounds, and the number of bytes to derive
  pub pbkdf2_hmac : Bytes → Bytes → ℕ → ℕ → Bytes
  -- key, initial counter block, data
  pub apply_keystream : Bytes → Bytes → Bytes → Bytes
  -- key, message
  pub hmac : Bytes → Bytes → Bytes
  pub length-pbkdf2_hmac :
      (pw salt : Bytes) (rounds n : ℕ) → length (pbkdf2_hmac pw salt rounds n) ≡ n
  pub length-apply_keystream :
      (key iv message : Bytes) → length (apply_keystream key iv message) ≡ length message
  -- The key stream is xored onto the data.
  pub apply_keystream-twice :
      (key iv message : Bytes) → apply_keystream key iv (apply_keystream key iv message) ≡ message
  pub length-hmac : (key message : Bytes) → length (hmac key message) ≡ 20

-- `[1, 0, 0, ...]`
abbrev pub first_counter : Bytes
first_counter = 1 ∷ replicate 15 0

module _ (P : Primitives) where
  open P use {pbkdf2_hmac, apply_keystream, hmac}

  unfoldable pub encrypt_with_salt : Bytes → Bytes → Bytes → ℕ → Option Bytes
  encrypt_with_salt password salt buf plaintext_len = do
    guard (length buf == salt_len + verify_len + plaintext_len + mac_len)
    let derived = pbkdf2_hmac password salt 1000 (key_len + mac_key_len + verify_len)
    let enc_key = take key_len derived
    let mac_key = slice key_len (key_len + mac_key_len) derived
    let verify = drop (key_len + mac_key_len) derived
    let salted = copy_from_slice 0 salt buf
    let verified = copy_from_slice salt_len verify salted
    let pt_start = salt_len + verify_len
    let pt_end = pt_start + plaintext_len
    let encrypted =
        copy_from_slice pt_start
          (apply_keystream enc_key first_counter (slice pt_start pt_end verified)) verified
    let tag = hmac mac_key (slice pt_start pt_end encrypted)
    some (copy_from_slice pt_end (take mac_len tag) encrypted)

  -- `salt` is what the random number generator gives.
  unfoldable pub encrypt_ae2_in_place : Bytes → Bytes → Bytes → ℕ → Option Bytes
  encrypt_ae2_in_place salt password buf plaintext_len = do
    guard (not (length password == 0))
    guard (length buf == salt_len + verify_len + plaintext_len + mac_len)
    encrypt_with_salt password salt buf plaintext_len

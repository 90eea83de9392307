-- ===== src/Crypto/Open.antt =====
-- Opening an encrypted body: what an unarchiver does with the password.
use tzip.Prelude.{
  ◌+◌, ◌-◌, ◌≡◌, ap, arith, ◌&&◌, Option, none, some, ◌++◌, if◌then◌else◌, length, take, drop,
  take-append_length, drop-append_length, drop-append_add,
}
use tzip.Bytes.{Bytes, bytes_eq, bytes_eq_refl}
use tzip.Crypto.{Primitives}
use tzip.Crypto.Envelope.{cipher, verify, tag, envelope, length-verify, length-envelope}

module _ (P : Primitives) where
  -- The 16 bytes of salt, the verifier and the code at the end are checked before the data is decrypted.
  unfoldable pub open_ae2 : Bytes → Bytes → Option Bytes
  open_ae2 pw body =
      let salt = take 16 body in
      let data_and_tag = drop 18 body in
      let encrypted = take (length body - 28) data_and_tag in
      if bytes_eq (take 2 (drop 16 body)) (verify P pw salt)
        && bytes_eq (drop (length body - 28) data_and_tag) (tag P pw salt encrypted)
      then some (cipher P pw salt encrypted)
      else none

  pub open_ae2-envelope :
      (pw salt plain : Bytes)
      → length salt ≡ 16
      → open_ae2 pw (envelope P pw salt plain) ≡ some plain
  unfolding open_ae2 envelope
  open_ae2-envelope pw salt plain hs =
      let v = verify P pw salt in
      let c = cipher P pw salt plain in
      let t = tag P pw salt c in
      let body = salt ++ (v ++ (c ++ t)) in
      let c_len : length c ≡ length plain = P.length-apply_keystream _ _ _ in
      let n : length body - 28 ≡ length c = omega (arith, length-envelope P pw salt plain hs) in
      let salt_part : take 16 body ≡ salt = rw (← hs) (take-append_length salt (v ++ (c ++ t))) in
      let after_salt : drop 16 body ≡ v ++ (c ++ t) =
        rw (← hs) (drop-append_length salt (v ++ (c ++ t))) in
      let v_part : take 2 (v ++ (c ++ t)) ≡ v =
        rw (← length-verify P pw salt) (take-append_length v (c ++ t)) in
      let after_v : drop 18 body ≡ c ++ t =
        let both : 18 ≡ length salt + 2 = omega arith in
        let rest : drop 2 (v ++ (c ++ t)) ≡ c ++ t =
          rw (← length-verify P pw salt) (drop-append_length v (c ++ t)) in
        rw (both, drop-append_add salt (v ++ (c ++ t)) 2) rest in
      rw
        (
          n,
          salt_part,
          after_salt,
          v_part,
          after_v,
          take-append_length c t,
          drop-append_length c t,
          bytes_eq_refl v,
          bytes_eq_refl t,
        )
        (ap some (P.apply_keystream-twice _ _ plain))

-- ===== src/Crypto/Envelope.antt =====
-- The bytes of a body that src/crypto.rs encrypts.
use tzip.Prelude.{
  ◌+◌, ◌≡◌, refl, sym, ◌∙◌, arith, ◌==◌, true, some, [], ◌++◌, length, take, drop, length-append,
  length-take, length-drop, append_assoc, take-append-drop,
}
use tzip.Bytes.{Bytes, copy_from_slice, slice}
use tzip.Bytes.Slices.{copy_from_slice-middle, slice-middle, copy_from_slice-last}
use tzip.Crypto.{Primitives, first_counter, encrypt_with_salt}

module _ (P : Primitives) where
  open P use {pbkdf2_hmac, apply_keystream, hmac}

  -- The derived bytes and their three parts.
  abbrev derived : Bytes → Bytes → Bytes
  derived pw salt = pbkdf2_hmac pw salt 1000 66

  abbrev pub cipher : Bytes → Bytes → Bytes → Bytes
  cipher pw salt x = apply_keystream (take 32 (derived pw salt)) first_counter x

  abbrev pub verify : Bytes → Bytes → Bytes
  verify pw salt = drop 64 (derived pw salt)

  abbrev pub tag : Bytes → Bytes → Bytes → Bytes
  tag pw salt x = take 10 (hmac (slice 32 64 (derived pw salt)) x)

  unfoldable pub envelope : Bytes → Bytes → Bytes → Bytes
  envelope pw salt plain =
      salt ++ (verify pw salt ++ (cipher pw salt plain ++ tag pw salt (cipher pw salt plain)))

  pub length-verify : (pw salt : Bytes) → length (verify pw salt) ≡ 2
  length-verify pw salt =
      omega (arith, length-drop 64 (derived pw salt), P.length-pbkdf2_hmac pw salt 1000 66)

  length-tag : (pw salt x : Bytes) → length (tag pw salt x) ≡ 10
  length-tag pw salt x =
      let h = P.hmac (slice 32 64 (derived pw salt)) x in
      omega (arith, length-take 10 h, P.length-hmac (slice 32 64 (derived pw salt)) x)

  encrypt_with_salt-pieces :
      (pw salt head mid plain tail : Bytes)
      → length salt ≡ 16
      → length head ≡ 16
      → length mid ≡ 2
      → length tail ≡ 10
      → encrypt_with_salt P pw salt (head ++ (mid ++ (plain ++ tail))) (length plain)
        ≡ some (envelope pw salt plain)
  unfolding encrypt_with_salt envelope
  encrypt_with_salt-pieces pw salt head mid plain tail hs hh hm ht =
      let v = verify pw salt in
      let c = cipher pw salt plain in
      let t = tag pw salt c in
      let pre = salt ++ v in
      let n = length plain in
      let whole : (length (head ++ (mid ++ (plain ++ tail))) == 18 + n + 10) ≡ true = ground (
        arith,
        length-append head (mid ++ (plain ++ tail)),
        length-append mid (plain ++ tail),
        length-append plain tail,
      ) in
      let salted : copy_from_slice 0 salt (head ++ (mid ++ (plain ++ tail)))
          ≡ salt ++ (mid ++ (plain ++ tail)) =
        copy_from_slice-middle [] head (mid ++ (plain ++ tail)) salt 0 refl (hh ∙ sym hs) in
      let verified : copy_from_slice 16 v (salt ++ (mid ++ (plain ++ tail)))
          ≡ pre ++ (plain ++ tail) =
        copy_from_slice-middle salt mid (plain ++ tail) v 16 hs (hm ∙ sym (length-verify pw salt))
        ∙ sym (append_assoc salt v (plain ++ tail)) in
      let pre_len : length pre ≡ 18 = omega (arith, length-append salt v, length-verify pw salt) in
      let c_len : length c ≡ n = P.length-apply_keystream _ _ _ in
      let t_len : length t ≡ 10 = length-tag pw salt c in
      let plain_part : slice 18 (18 + n) (pre ++ (plain ++ tail)) ≡ plain =
        slice-middle pre plain tail 18 (18 + n) pre_len refl in
      let encrypted : copy_from_slice 18 c (pre ++ (plain ++ tail)) ≡ pre ++ (c ++ tail) =
        copy_from_slice-middle pre plain tail c 18 pre_len (sym c_len) in
      let cipher_part : slice 18 (18 + n) (pre ++ (c ++ tail)) ≡ c =
        slice-middle pre c tail 18 (18 + n) pre_len (omega arith) in
      let tagged : copy_from_slice (18 + n) t (pre ++ (c ++ tail)) ≡ salt ++ (v ++ (c ++ t)) =
        copy_from_slice-last pre c tail t (18 + n) (omega arith) (ht ∙ sym t_len)
        ∙ append_assoc salt v (c ++ t) in
      rw (whole, salted, verified, plain_part, encrypted, cipher_part, tagged) refl

  -- Whatever stands around the data is written over.
  pub encrypt_with_salt-envelope :
      (pw salt pre plain tail : Bytes)
      → length salt ≡ 16
      → length pre ≡ 18
      → length tail ≡ 10
      → encrypt_with_salt P pw salt (pre ++ (plain ++ tail)) (length plain)
        ≡ some (envelope pw salt plain)
  encrypt_with_salt-envelope pw salt pre plain tail hs hp ht =
      let cut = append_assoc (take 16 pre) (drop 16 pre) (plain ++ tail) in
      rw (← take-append-drop 16 pre, cut)
        (encrypt_with_salt-pieces pw salt (take 16 pre) (drop 16 pre) plain tail hs
          (omega (arith, length-take 16 pre)) (omega (arith, length-drop 16 pre)) ht)

  pub length-envelope :
      (pw salt plain : Bytes)
      → length salt ≡ 16
      → length (envelope pw salt plain) ≡ length plain + 28
  unfolding envelope
  length-envelope pw salt plain hs =
      let c = cipher pw salt plain in
      let t = tag pw salt c in
      let c_len : length c ≡ length plain = P.length-apply_keystream _ _ _ in
      omega (
        arith,
        length-append salt (verify pw salt ++ (c ++ t)),
        length-append (verify pw salt) (c ++ t),
        length-append c t,
        length-verify pw salt,
        length-tag pw salt c,
        c_len,
      )

-- ===== src/RawApfs/Source/Device.antt =====
-- The device paths of src/raw_apfs.rs.
use tzip.Prelude.{◌≡◌, ◌≢◌, refl, ap, ◌∙◌, arith, true, some, [], ◌∷◌, ◌++◌, All}
use tzip.Bytes.{Bytes}
use tzip.RawApfs.Source.{
  dev_disk, dev_rdisk, strip_str, is_ascii_digit, leading_digits, rdisk, rdisk_of, whole_disk_raw,
}

strip_str-append : (p s : Bytes) → strip_str p (p ++ s) ≡ some s
unfolding strip_str
strip_str-append [] s = refl
strip_str-append (c ∷ p) s = ground (arith, strip_str-append p s)

leading_digits-append :
    (n rest : Bytes)
    → All (λ c. is_ascii_digit c ≡ true) n
    → leading_digits rest ≡ []
    → leading_digits (n ++ rest) ≡ n
unfolding leading_digits
leading_digits-append [] rest h e = e
leading_digits-append (c ∷ n) rest (d, h) e =
    rw d (ap (λ (l : Bytes). c ∷ l) (leading_digits-append n rest h e))

rdisk-nonempty : (n : Bytes) → n ≢ [] → rdisk n ≡ some (dev_rdisk ++ n)
rdisk-nonempty [] d = absurd (d refl)
rdisk-nonempty (c ∷ n) d = refl

-- A partition "/dev/disk<n><rest>", with a number `n` and a rest that does not begin with a digit, belongs to
-- the whole raw disk "/dev/rdisk<n>".
pub whole_disk_raw-append :
    (n rest : Bytes)
    → n ≢ []
    → All (λ c. is_ascii_digit c ≡ true) n
    → leading_digits rest ≡ []
    → whole_disk_raw (dev_disk ++ (n ++ rest)) ≡ some (dev_rdisk ++ n)
unfolding whole_disk_raw
whole_disk_raw-append n rest nonempty digits e =
    ap rdisk_of (strip_str-append dev_disk (n ++ rest))
    ∙ (ap rdisk (leading_digits-append n rest digits e) ∙ rdisk-nonempty n nonempty)

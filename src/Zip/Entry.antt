-- ===== src/Zip/Entry.antt =====
-- The records of src/zipwriter.rs and its constants. A `String` is the list of its UTF-8 bytes.
use tzip.Prelude.{ℕ, Bool}
use tzip.Bytes.{Bytes}

abbrev pub sig_lfh : ℕ
sig_lfh = 0x0403_4b50

abbrev pub sig_cdr : ℕ
sig_cdr = 0x0201_4b50

abbrev pub sig_eocd : ℕ
sig_eocd = 0x0605_4b50

abbrev pub sig_eocd64 : ℕ
sig_eocd64 = 0x0606_4b50

abbrev pub sig_eocd64_loc : ℕ
sig_eocd64_loc = 0x0706_4b50

abbrev pub method_aes : ℕ
method_aes = 99

abbrev pub aes_extra_id : ℕ
aes_extra_id = 0x9901

pub record EncodedEntry : Type 0 where
  pub index : ℕ
  pub name : Bytes
  pub body : Bytes
  pub uncompressed_size : ℕ
  pub crc32 : ℕ
  pub method_on_wire : ℕ
  pub inner_method : ℕ
  pub encrypted : Bool
  pub gp_bit1 : Bool
  pub version_needed : ℕ
  pub mtime : ℕ × ℕ

pub record CentralEntry : Type 0 where
  pub name : Bytes
  pub method_on_wire : ℕ
  pub inner_method : ℕ
  pub encrypted : Bool
  pub gp_bit1 : Bool
  pub version_needed : ℕ
  pub crc32 : ℕ
  pub comp_size : ℕ
  pub uncomp_size : ℕ
  pub lfh_offset : ℕ
  pub mtime : ℕ × ℕ

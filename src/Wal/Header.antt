-- ===== src/Wal/Header.antt =====
-- storage/src/wal/entry.rs: `WalHeader`, the header of a segment.
use chono_db.Prelude.Bytes.{
  to_le_bytes, u32_at, u32_at-to_le_bytes, u64_at, u64_at-u64_bytes, u64_bytes,
}
use chono_db.Prelude.{false, ℕ, ◌^◌, ◌≡◌, ◌<◌, refl, arith, List, ◌++◌, length, ltb, if◌then◌else◌}
use chono_db.Prelude.Int.{ℤ}
use chono_db.Prelude.Word.{as_u64, as_i64, IsU64, IsI64}
use chono_db.Error.{Result, ok, err, wal}
use chono_db.Model.{Timestamp}

pub record WalHeader : Type 0 where
  pub sequence : ℕ
  pub created_at : ℤ
  pub version : ℕ

abbrev pub header_size : ℕ
header_size = 20

abbrev pub current_version : ℕ
current_version = 1

unfoldable pub new_header : Timestamp → ℕ → WalHeader
new_header now sequence = record {
  sequence = sequence;
  created_at = now;
  version = current_version;
}

unfoldable pub encode_header : WalHeader → List ℕ
encode_header header =
    u64_bytes header.sequence
    ++ (u64_bytes (as_u64 header.created_at) ++ to_le_bytes header.version)

unfoldable pub decode_header : List ℕ → Result WalHeader
decode_header bytes =
    if ltb (length bytes) header_size
    then err (wal "WAL header too short")
    else ok (record {
      sequence = u64_at bytes 0;
      created_at = as_i64 (u64_at bytes 8);
      version = u32_at bytes 16;
    })

pub record IsHeader (header : WalHeader) : Type 0 where
  pub sequence_fits : IsU64 header.sequence
  pub created_fits : IsI64 header.created_at
  pub version_fits : header.version < 2 ^ 32

as_u64-IsU64 : (v : ℤ) → IsI64 v → IsU64 (as_u64 v)
as_u64-IsU64 v h = ground arith

as_i64-as_u64 : (v : ℤ) → IsI64 v → as_i64 (as_u64 v) ≡ v
as_i64-as_u64 v h = ground arith

-- A header whose fields fit into their machine words is read back from its bytes, whatever follows.
pub decode-encode_header :
    (header : WalHeader) (rest : List ℕ)
    → IsHeader header
    → decode_header (encode_header header ++ rest) ≡ ok header
unfolding decode_header encode_header u64_bytes u64_at u32_at to_le_bytes
decode-encode_header header rest h =
    let long : ltb (length (encode_header header ++ rest)) 20 ≡ false = ground arith in
    let created = as_u64-IsU64 header.created_at h.created_fits in
    let n : u64_at (encode_header header ++ rest) 0 ≡ header.sequence =
      u64_at-u64_bytes header.sequence
        (u64_bytes (as_u64 header.created_at) ++ (to_le_bytes header.version ++ rest))
        h.sequence_fits in
    let c : u64_at (encode_header header ++ rest) 8 ≡ as_u64 header.created_at =
      u64_at-u64_bytes (as_u64 header.created_at) (to_le_bytes header.version ++ rest) created in
    let v : u32_at (encode_header header ++ rest) 16 ≡ header.version =
      u32_at-to_le_bytes header.version rest h.version_fits in
    rw (long, n, c, v, as_i64-as_u64 header.created_at h.created_fits) refl

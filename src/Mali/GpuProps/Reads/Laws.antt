-- ===== src/Mali/GpuProps/Reads/Laws.antt =====
-- The READ macros undo the little-endian encoding.
use hwcpipe.Common.{ℕ, ◌+◌, ◌*◌, ◌/◌, ◌%◌, ◌^◌, ◌<◌, ◌≡◌, ap, ◌∙◌, List, ◌++◌, some, arith, bit_or}
use hwcpipe.Common.Bits.{bit_or_shifted}
use hwcpipe.Mali.GpuProps.Encode.{le_bytes}
use hwcpipe.Mali.GpuProps.Reads.{read_u8, read_u16, read_u32, read_u64}

pub read_u8-le_bytes : (v : ℕ) (rest : List ℕ) → v < 2 ^ 8 → read_u8 (le_bytes 1 v ++ rest) ≡ some v
unfolding read_u8
read_u8-le_bytes v rest h = ap (λ (n : ℕ). some n) (omega arith)

join : (k lo hi v : ℕ) → lo < 2 ^ k → lo + hi * 2 ^ k ≡ v → bit_or lo (hi * 2 ^ k) ≡ v
join k lo hi v h e = bit_or_shifted k lo hi h ∙ e

bytes16 : (v : ℕ) → bit_or (v % 256) (v / 256 % 256 * 2 ^ 8) ≡ v % 2 ^ 16
bytes16 v = join 8 (v % 256) (v / 256 % 256) (v % 2 ^ 16) (omega arith) (omega arith)

pub read_u16-le_bytes :
    (v : ℕ) (rest : List ℕ) → v < 2 ^ 16 → read_u16 (le_bytes 2 v ++ rest) ≡ some v
unfolding read_u16
read_u16-le_bytes v rest h = ap (λ (n : ℕ). some n) (omega (arith, bytes16 v))

bytes32 :
    (v : ℕ)
    → bit_or
        (bit_or (v % 256) (v / 256 % 256 * 2 ^ 8))
        (bit_or (v / 256 / 256 % 256) (v / 256 / 256 / 256 % 256 * 2 ^ 8) * 2 ^ 16)
      ≡ v % 2 ^ 32
bytes32 v =
    rw (bytes16 v, bytes16 (v / 256 / 256))
      (join 16 (v % 2 ^ 16) (v / 256 / 256 % 2 ^ 16) (v % 2 ^ 32) (omega arith) (omega arith))

pub read_u32-le_bytes :
    (v : ℕ) (rest : List ℕ) → v < 2 ^ 32 → read_u32 (le_bytes 4 v ++ rest) ≡ some v
unfolding read_u32
read_u32-le_bytes v rest h = ap (λ (n : ℕ). some n) (omega (arith, bytes32 v))

pub read_u64-le_bytes :
    (v : ℕ) (rest : List ℕ) → v < 2 ^ 64 → read_u64 (le_bytes 8 v ++ rest) ≡ some v
unfolding read_u64
read_u64-le_bytes v rest h =
    ap (λ (n : ℕ). some n)
      (rw (bytes32 v, bytes32 (v / 256 / 256 / 256 / 256))
        (join 32 (v % 2 ^ 32) (v / 256 / 256 / 256 / 256 % 2 ^ 32) v (omega arith) (omega arith)))

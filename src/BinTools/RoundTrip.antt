-- ===== src/BinTools/RoundTrip.antt =====
-- The integers of bintools.h come back as they were written.
use tani_dvr.Prelude.{
  All-get_or, List, [], arith, get_or-splice_in, length, refl, splice, ℕ, ◌*◌, ◌+◌, ◌<◌, ◌^◌, ◌∷◌,
  ◌≡◌, ◌≤◌,
}
use tani_dvr.BinTools.{IsByte, AreBytes, nv2lm_u32, lm2nv_u32, nv2mm_u32, nv2mm_u64}

-- A 32-bit value written by BT_NV2LM_U32 anywhere inside a buffer is read back by BT_LM2NV_U32 at
-- that place.
pub lm2nv_u32-nv2lm_u32 :
    (mem : List ℕ) (p v : ℕ)
    → p + 4 ≤ length mem
    → v < 2 ^ 32
    → lm2nv_u32 (splice mem p (nv2lm_u32 v)) p ≡ v
unfolding lm2nv_u32
lm2nv_u32-nv2lm_u32 mem p v h hv = omega (
  arith,
  get_or-splice_in mem p (nv2lm_u32 v) 0 p h (omega arith) (omega arith),
  get_or-splice_in mem p (nv2lm_u32 v) 1 (p + 1) h (omega arith) refl,
  get_or-splice_in mem p (nv2lm_u32 v) 2 (p + 2) h (omega arith) refl,
  get_or-splice_in mem p (nv2lm_u32 v) 3 (p + 3) h (omega arith) refl,
)

pub lm2nv_u32-lt : (mem : List ℕ) (p : ℕ) → AreBytes mem → lm2nv_u32 mem p < 2 ^ 32
unfolding lm2nv_u32
lm2nv_u32-lt mem p h = omega (
  arith,
  All-get_or IsByte mem 0 p (omega arith) h,
  All-get_or IsByte mem 0 (p + 1) (omega arith) h,
  All-get_or IsByte mem 0 (p + 2) (omega arith) h,
  All-get_or IsByte mem 0 (p + 3) (omega arith) h,
)

-- Writing the value that was read restores the bytes.
pub nv2lm_u32-lm2nv_u32 :
    (a b c d : ℕ)
    → a < 256
    → b < 256
    → c < 256
    → d < 256
    → nv2lm_u32 (lm2nv_u32 (a ∷ b ∷ c ∷ d ∷ []) 0) ≡ a ∷ b ∷ c ∷ d ∷ []
unfolding lm2nv_u32
nv2lm_u32-lm2nv_u32 a b c d ha hb hc hd = ground arith

-- The value of bytes, most significant first.
unfoldable pub mm_value : ℕ → List ℕ → ℕ
mm_value acc [] = acc
mm_value acc (b ∷ bs) = mm_value (acc * 256 + b) bs

-- The eight bytes that BT_NV2MM_U64 writes, read most significant first, are the 64-bit value.
pub mm_value-nv2mm_u64 : (v : ℕ) → v < 2 ^ 64 → mm_value 0 (nv2mm_u64 v) ≡ v
unfolding mm_value
mm_value-nv2mm_u64 v h = omega arith

pub mm_value-nv2mm_u32 : (v : ℕ) → v < 2 ^ 32 → mm_value 0 (nv2mm_u32 v) ≡ v
unfolding mm_value
mm_value-nv2mm_u32 v h = omega arith

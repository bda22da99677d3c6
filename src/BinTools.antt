-- ===== src/BinTools.antt =====
-- src/bintools.h: integers in memory, byte by byte. A `uint8_t` is a number below 256, so the OR of
-- bytes shifted apart is their sum, and `(v >> k) & 0xff` is a quotient and a remainder.
pub mod RoundTrip
use tani_dvr.Prelude.{
  ℕ, ◌+◌, ◌-◌, ◌*◌, ◌/◌, ◌%◌, ◌^◌, ◌<◌, Bool, ◌&&◌, List, [], ◌∷◌, ltb, ◌==◌, if◌then◌else◌, get_or,
  All,
}

abbrev pub IsByte : ℕ → Type 0
IsByte b = b < 256

abbrev pub AreBytes : List ℕ → Type 0
AreBytes = All IsByte

-- `*(mem + p)`.
abbrev pub byte_at : List ℕ → ℕ → ℕ
byte_at mem p = get_or mem p 0

-- BT_NV2MM_U64, U32 and U16: the bytes written, most significant first.
abbrev pub nv2mm_u64 : ℕ → List ℕ
nv2mm_u64 v =
    (v / 2 ^ 56 % 256)
    ∷ (v / 2 ^ 48 % 256)
    ∷ (v / 2 ^ 40 % 256)
    ∷ (v / 2 ^ 32 % 256)
    ∷ (v / 2 ^ 24 % 256)
    ∷ (v / 2 ^ 16 % 256)
    ∷ (v / 2 ^ 8 % 256)
    ∷ (v % 256)
    ∷ []

abbrev pub nv2mm_u32 : ℕ → List ℕ
nv2mm_u32 v = (v / 2 ^ 24 % 256) ∷ (v / 2 ^ 16 % 256) ∷ (v / 2 ^ 8 % 256) ∷ (v % 256) ∷ []

abbrev pub nv2mm_u16 : ℕ → List ℕ
nv2mm_u16 v = (v / 2 ^ 8 % 256) ∷ (v % 256) ∷ []

-- BT_LM2NV_U32 and U16: read least significant byte first. The value of the C expression is an
-- `int`; this is its bit pattern.
unfoldable pub lm2nv_u32 : List ℕ → ℕ → ℕ
lm2nv_u32 mem p =
    byte_at mem p
    + byte_at mem (p + 1) * 2 ^ 8
    + byte_at mem (p + 2) * 2 ^ 16
    + byte_at mem (p + 3) * 2 ^ 24

unfoldable pub lm2nv_u16 : List ℕ → ℕ → ℕ
lm2nv_u16 mem p = byte_at mem p + byte_at mem (p + 1) * 2 ^ 8

-- An `int` bit pattern stored into a 64-bit `size_t` is sign-extended.
unfoldable pub int_to_size : ℕ → ℕ
int_to_size x = if ltb x (2 ^ 31) then x else x + (2 ^ 64 - 2 ^ 32)

-- BT_NV2LM_U32 and U16: the bytes written, least significant first.
abbrev pub nv2lm_u32 : ℕ → List ℕ
nv2lm_u32 v = (v % 256) ∷ (v / 2 ^ 8 % 256) ∷ (v / 2 ^ 16 % 256) ∷ (v / 2 ^ 24 % 256) ∷ []

abbrev pub nv2lm_u16 : ℕ → List ℕ
nv2lm_u16 v = (v % 256) ∷ (v / 2 ^ 8 % 256) ∷ []

-- BT_IDeqLM_32: the XORs are all zero when the four bytes are equal.
unfoldable pub id_eq_lm32 : ℕ → ℕ → ℕ → ℕ → List ℕ → ℕ → Bool
id_eq_lm32 i0 i1 i2 i3 mem p =
    (i0 == byte_at mem p)
    && (i1 == byte_at mem (p + 1))
    && (i2 == byte_at mem (p + 2))
    && (i3 == byte_at mem (p + 3))

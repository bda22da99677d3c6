-- ===== src/Link.antt =====
-- src/llprotocol.h and src/llprotocol.c: headers of 32 bytes and their extended data over the two
-- `FILE` streams of a connection, with `fread` and `fwrite` as ISO C states them.
pub mod Messages
use tani_dvr.Prelude.Int.{ℤ, pos, minus}
use tani_dvr.BinTools.{lm2nv_u32, nv2lm_u32}
use tani_dvr.Prelude.{
  Bool, List, [], drop, get_or, if◌then◌else◌, leb, length, ltb, replicate, set, splice, suc, take,
  zero, ℕ, ◌++◌, ◌-◌, ◌==◌, ◌^◌,
}

-- `incoming` is what `fread` will still deliver before the end or an error; `outgoing` is what was
-- written; `fwrite` fails beyond `room` more bytes.
pub record Conn : Type 0 where
  pub incoming : List ℕ
  pub outgoing : List ℕ
  pub room : ℕ

pub record LlHeader : Type 0 where
  pub raw : List ℕ
  pub extlen : ℕ

abbrev pub llp_header_size : ℕ
llp_header_size = 32

abbrev pub llp_hd_nop_req : ℕ
llp_hd_nop_req = 161

abbrev pub llp_hd_nop_reply : ℕ
llp_hd_nop_reply = 177

abbrev pub llp_hd_cmd : LlHeader → ℕ
llp_hd_cmd h = get_or h.raw 0 0

abbrev pub fread : Conn → ℕ → Conn × List ℕ
fread c n = (record c { incoming = drop n c.incoming }, take n c.incoming)

-- With `true` when all was written.
abbrev pub fwrite : Conn → List ℕ → Conn × Bool
fwrite c xs = (
  record c { outgoing = c.outgoing ++ take c.room xs; room = c.room - length xs },
  leb (length xs) c.room,
)

-- `llp_init_header`.
abbrev pub init_header : LlHeader
init_header = record { raw = replicate llp_header_size 0; extlen = 0 }

-- `ll_header.raw[i] = v`.
abbrev pub with_raw : LlHeader → ℕ → ℕ → LlHeader
with_raw h i v = record h { raw = set h.raw i v }

unfoldable pub llp_get_header : Conn → Conn × LlHeader × ℕ
llp_get_header c =
    let (c', xs) = fread c llp_header_size in
    let raw = splice (replicate llp_header_size 0) 0 xs in
    if length xs == llp_header_size
    then (c', record { raw = raw; extlen = lm2nv_u32 raw 4 }, 0)
    else (c', record { raw = raw; extlen = 0 }, 1)

-- A `uint32_t` as an `int`.
unfoldable pub to_int : ℕ → ℤ
to_int x = if ltb x (2 ^ 31) then pos x else minus (2 ^ 32 - x)

-- Also the bytes that were put in `buf`.
unfoldable pub llp_get_extdata_sbuff : Conn → LlHeader → ℕ → Conn × List ℕ × ℤ
llp_get_extdata_sbuff c h buflen =
    let (c', xs) = fread c h.extlen in
    if h.extlen == 0
    then (c, [], pos 0)
    else if ltb buflen h.extlen
    then (c, [], minus 2)
    else if length xs == h.extlen
    then (c', xs, to_int h.extlen)
    else (c', xs, minus 1)

abbrev pub discard_chunk_size : ℕ
discard_chunk_size = 65536

-- The loop of llp_get_discard_extdata with `rem` bytes to go. Each round reads at least one byte,
-- so `rem` rounds are enough.
unfoldable pub discard : ℕ → Conn → ℕ → Conn × ℕ
discard zero c rem = (c, 0)
discard (suc k) c rem =
    let to_read = if ltb discard_chunk_size rem then discard_chunk_size else rem in
    let (c', xs) = fread c to_read in
    let again = discard k c' (rem - to_read) in
    if rem == 0 then (c, 0) else if length xs == to_read then again else (c', 2)

unfoldable pub llp_get_discard_extdata : Conn → LlHeader → Conn × ℕ
llp_get_discard_extdata c h = discard h.extlen c h.extlen

unfoldable pub llp_send_header : Conn → LlHeader → Conn × ℕ
llp_send_header c h =
    let (c', written) = fwrite c (splice h.raw 4 (nv2lm_u32 h.extlen)) in
    if written then (c', 0) else (c', 1)

unfoldable pub llp_send_nop : Conn → Conn × ℕ
llp_send_nop c = llp_send_header c (with_raw init_header 0 llp_hd_nop_req)

unfoldable pub llp_send_extdata : Conn → List ℕ → Conn × ℕ
llp_send_extdata c payload =
    let (c', written) = fwrite c payload in if written then (c', 0) else (c', 1)

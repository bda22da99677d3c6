-- ===== src/Protocol/Channels.antt =====
-- hlp_get_channel_names: the names are turned into lines in place, in the block of 512 bytes that
-- received them.
pub mod Lines
use tani_dvr.Prelude.Int.{pos, negsuc}
use tani_dvr.BinTools.{byte_at}
use tani_dvr.Link.{Conn, init_header, with_raw, llp_get_extdata_sbuff, llp_send_header}
use tani_dvr.Protocol.{hlp_get_header}
use tani_dvr.Prelude.{
  ==_iff, All, All-append, All-get_or, All-split, Bool, Bool-cases, List, Option, [], add-one, ap,
  append-nil, append_assoc, append_inj, arith, dec_lt, drop, drop-drop, drop-length_append,
  drop-past, false, flatten, get_or, get_or-append, get_or-cons, get_or-past, get_or-set,
  get_or-splice, get_or-splice_in, get_or-splice_out, get_or-tabulate, if◌then◌else◌, inl, inr, leb,
  leb→le, length, length-append, length-drop, length-replicate, length-set, length-splice,
  length-tabulate, length-take, list_ext, ltb, ltb→le, ltb→lt, lt→ltb, map, none, not, refl,
  replicate, set, some, splice, sub_size, suc, sym, tabulate, tabulate-add, tabulate-get_or,
  tabulate_congr, take, take-append-drop, take-length_append, take-past, true, window, window-front,
  window_cut, window_split, window_total, zero, ℕ, ◌%◌, ◌&&◌, ◌*◌, ◌++◌, ◌+◌, ◌-◌, ◌/◌, ◌<◌, ◌==◌,
  ◌^◌, ◌||◌, ◌↔◌, ◌∙◌, ◌∷◌, ◌≡◌, ◌≢◌, ◌≤◌, ◌⊎◌,
}

abbrev pub chnames_size : ℕ
chnames_size = 512

-- The loop with `k` bytes of the block from `src` on. `none` is a read behind the block; the result
-- is the block and `dst`.
unfoldable pub names_loop : ℕ → List ℕ → ℕ → ℕ → Bool → Option (List ℕ × ℕ)
names_loop zero mem src dst prev_was_amp = none
names_loop (suc k) mem src dst prev_was_amp =
    let c = byte_at mem src in
    let skipped = names_loop k mem (src + 1) dst true in
    let line = names_loop k (set mem dst 10) (src + 1) (dst + 1) true in
    let copied = names_loop k (set mem dst c) (src + 1) (dst + 1) false in
    if c == 0
    then some (mem, dst)
    else if c == b'&'
    then if prev_was_amp then skipped else line
    else copied

-- And the last line end and the terminator; `none` also if that is written behind the block.
unfoldable pub close_names : Option (List ℕ × ℕ) → Option (List ℕ)
close_names none = none
close_names (some (mem, dst)) =
    if ltb (dst + 1) (length mem) then some (set (set mem dst 10) (dst + 1) 0) else none

unfoldable pub format_names : List ℕ → Option (List ℕ)
format_names mem = close_names (names_loop (length mem) mem 0 0 false)

-- How the call ends: a return, with the block in `*outb` if it is 0, or an access behind the block.
pub data ChannelNames : Type 0 where
  returned : Conn → ℕ → ChannelNames
  named : Conn → List ℕ → ChannelNames
  outside : ChannelNames

unfoldable pub deliver_names : Conn → Option (List ℕ) → ChannelNames
deliver_names c none = outside
deliver_names c (some outstr) = named c outstr

-- `block` is what `malloc` returned.
unfoldable pub hlp_get_channel_names : Conn → Option (List ℕ) → ChannelNames
hlp_get_channel_names c none = returned c 10
hlp_get_channel_names c (some block) =
    let out = with_raw init_header 0 168 in
    let (c1, _) = llp_send_header c out in
    let (c2, failed) = llp_send_header c1 (with_raw out 8 1) in
    let (c3, h, retcode) = hlp_get_header c2 184 in
    let (c4, extdata, n) = llp_get_extdata_sbuff c3 h chnames_size in
    if not (failed == 0)
    then returned c2 4
    else if not (retcode == 0)
    then returned c3 2
    else elim n [
      | pos n ↦ deliver_names c4 (format_names (splice block 0 extdata))
      | negsuc n ↦ returned c4 3
    ]

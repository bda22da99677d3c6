-- ===== src/Tests.antt =====
-- The theorems at concrete inputs: short queues, buffers and streams.
pub mod Session
pub mod Output
pub mod Conversion
pub mod Streaming
pub mod Options
pub mod Sockets
pub mod Shtools
pub mod Timers
pub mod Mptools
use tani_dvr.Fifo.Order.{fifo_to_fd-Flushed}
use tani_dvr.Tunnel.Order.{buffered_tunnel_pipe-Ordered, OrderedNext, Honest}
use tani_dvr.Fifo.{ready, bytes, fifo_to_fd, fd_to_fifo, took, Fifo, WriteReply, ReadReply}
use tani_dvr.Fifo.Contents.{fd_to_fifo-Filled, IsWrite, Flushed, IsRead, Filled}
use tani_dvr.Tunnel.{able, woke, buffered_tunnel_pipe, Wake, Flow}
use tani_dvr.Prelude.Int.{pos, minus}
use tani_dvr.BinTools.{byte_at, id_eq_lm32, lm2nv_u32, nv2lm_u32, nv2mm_u64}
use tani_dvr.BinTools.RoundTrip.{lm2nv_u32-nv2lm_u32, mm_value, mm_value-nv2mm_u64}
use tani_dvr.Frames.{Dstf, IsValid, done, load, contents, memcpy_overlap}
use tani_dvr.Frames.Queue.{Loaded, load_lem}
use tani_dvr.Frames.Dhav.{process_dhav, pull}
use tani_dvr.Frames.Dhav.Frame.{IsFrame}
use tani_dvr.Frames.Dhav.Pull.{advance, pull-frame, pull-partial}
use tani_dvr.Frames.Dhav.Sound.{Kept, process_dhav-Kept}
use tani_dvr.Frames.Dhav.ZeroLength.{ZeroFrame}
use tani_dvr.Frames.Raw.{search_mpeg_nal, process_raw_h264}
use tani_dvr.Identify.{mc_form_dhav, identify_mc_format}
use tani_dvr.Identify.Marks.{ByMarks, identify_mc_format-ByMarks}
use tani_dvr.Stream.Ends.{run_raw_h264-ends}
use tani_dvr.Frames.Raw.Sound.{Found, search_mpeg_nal-Found, KeptRaw, process_raw_h264-Kept}
use tani_dvr.Stream.{crash, no_end, run, drain, end_of_input, endless}
use tani_dvr.Stream.Reassembly.{run-frames}
use tani_dvr.Stream.Handled.{Holds, Fits, handle_all}
use tani_dvr.Stream.Hang.{drain_hangs}
use tani_dvr.Prelude.{
  ==_iff, All, All-append, All-get_or, All-split, Bool, Bool-cases, List, Option, [], add-one, ap,
  append-nil, append_assoc, append_inj, arith, dec_lt, drop, drop-drop, drop-length_append,
  drop-past, false, flatten, get_or, get_or-append, get_or-cons, get_or-past, get_or-set,
  get_or-splice, get_or-splice_in, get_or-splice_out, get_or-tabulate, if_cases, if_false, if_true,
  if◌then◌else◌, inl, inr, leb, leb→le, length, length-append, length-drop, length-replicate,
  length-set, length-splice, length-tabulate, length-take, list_ext, ltb, ltb→le, ltb→lt, lt→ltb,
  map, none, not, refl, replicate, set, some, splice, sub_size, suc, sym, tabulate, tabulate-add,
  tabulate-get_or, tabulate_congr, take, take-append-drop, take-length_append, take-past, true,
  window, window-front, window_cut, window_split, window_total, zero, ℕ, ◌%◌, ◌&&◌, ◌*◌, ◌++◌, ◌+◌,
  ◌-◌, ◌/◌, ◌<◌, ◌==◌, ◌^◌, ◌||◌, ◌↔◌, ◌∙◌, ◌∷◌, ◌≡◌, ◌≢◌, ◌≤◌, ◌⊎◌,
}

-- The shortest frame with room for its trailer behind its header.
abbrev frame24 : List ℕ
frame24 =
    b'D' ∷ b'H' ∷ b'A' ∷ b'V' ∷ 0 ∷ 0 ∷ 0 ∷ 0 ∷ 0 ∷ 0 ∷ 0 ∷ 0 ∷ 24 ∷ 0 ∷ 0 ∷ 0 ∷ b'd' ∷ b'h' ∷ b'a'
    ∷ b'v' ∷ 24 ∷ 0 ∷ 0 ∷ 0 ∷ []

frame24-IsFrame : IsFrame frame24
unfolding lm2nv_u32 id_eq_lm32
frame24-IsFrame = record {
  long = omega arith;
  small = omega arith;
  head = refl;
  size = refl;
  tail = refl;
  size_again = refl;
}

abbrev queue64 : Dstf
queue64 = record { sq = replicate 64 7; sq_offs = 0; sq_len = 0; sq_maxlen = 64 }

queue64-IsValid : IsValid queue64
queue64-IsValid = record { whole = refl; inside = omega arith; small = omega arith }

-- Two frames, read as 20 bytes and 28.
abbrev reads : List (List ℕ)
reads = take 20 frame24 ∷ (drop 20 frame24 ++ frame24) ∷ []

abbrev collect : List (List ℕ) → List ℕ → List (List ℕ) × Bool
collect s f = (f ∷ s, true)

abbrev never : List (List ℕ) → Bool
never s = false

run-frames_example :
    (d' : Dstf) × (run (λ d src. process_dhav d src 24) collect never 65 queue64 [] reads
      ≡ end_of_input d' (handle_all collect [] (frame24 ∷ frame24 ∷ [])))
    × (contents d' ≡ [])
run-frames_example =
    run-frames collect never (λ s. Unit {0}) 64 24 28 (Fits 64 24 28) (λ f fit. fit)
      (λ s f o fit. (refl, tt)) (λ s o. refl) reads (frame24 ∷ frame24 ∷ []) 65 queue64 [] []
      (record { valid = queue64-IsValid; size = refl; bytes = refl; room = omega arith })
      (omega arith, (omega arith, tt)) (omega arith) (unfold flatten in refl)
      (
        (frame24-IsFrame, omega arith, omega arith),
        ((frame24-IsFrame, omega arith, omega arith), tt),
      )
      (omega arith) tt

-- A frame, and the first four bytes of the next.
abbrev queue32 : Dstf
queue32 = record { sq = frame24 ++ take 8 frame24; sq_offs = 0; sq_len = 28; sq_maxlen = 32 }

queue32-IsValid : IsValid queue32
queue32-IsValid = record { whole = refl; inside = omega arith; small = omega arith }

identify_mc_format-ByMarks_example :
    ByMarks (frame24 ++ frame24) (identify_mc_format (frame24 ++ frame24))
    × ((f rest : List ℕ)
        → IsFrame f
        → frame24 ++ frame24 ≡ f ++ rest
        → identify_mc_format (frame24 ++ frame24) ≡ mc_form_dhav)
identify_mc_format-ByMarks_example = identify_mc_format-ByMarks (frame24 ++ frame24) (omega arith)

process_dhav-Kept_example :
    ((32 < 29) × (process_dhav queue32 (0 ∷ []) 24 ≡ done queue32 [] (minus 1)))
    ⊎ ((q : Dstf) × Loaded queue32 (0 ∷ []) q × Kept q (process_dhav queue32 (0 ∷ []) 24))
process_dhav-Kept_example = process_dhav-Kept queue32 (0 ∷ []) 24 queue32-IsValid (omega arith)

abbrev frame23 : List ℕ
frame23 = take 23 frame24

load_lem_example :
    ((32 < 31) × (load (record queue32 { sq_offs = 24; sq_len = 8 }) frame23 ≡ none))
    ⊎ ((d' : Dstf) × (load (record queue32 { sq_offs = 24; sq_len = 8 }) frame23 ≡ some d')
        × Loaded (record queue32 { sq_offs = 24; sq_len = 8 }) frame23 d')
load_lem_example =
    load_lem (record queue32 { sq_offs = 24; sq_len = 8 }) frame23
      (record { whole = refl; inside = omega arith; small = omega arith }) (omega arith)

-- An overlapping move.
-- A trailer of length 0, and a header of length 0 at the end of the queue.
abbrev zero_tail : List ℕ
zero_tail = b'd' ∷ b'h' ∷ b'a' ∷ b'v' ∷ 0 ∷ 0 ∷ 0 ∷ 0 ∷ []

abbrev zero_head : List ℕ
zero_head = b'D' ∷ b'H' ∷ b'A' ∷ b'V' ∷ 0 ∷ 0 ∷ 0 ∷ 0 ∷ 0 ∷ 0 ∷ 0 ∷ 0 ∷ 0 ∷ 0 ∷ 0 ∷ 0 ∷ []

abbrev zero_queue : Dstf
zero_queue = record { sq = zero_tail ++ zero_head; sq_offs = 8; sq_len = 16; sq_maxlen = 24 }

zero_queue-ZeroFrame : ZeroFrame zero_queue
unfolding lm2nv_u32 id_eq_lm32
zero_queue-ZeroFrame = record {
  behind = omega arith;
  present = omega arith;
  head = refl;
  size = refl;
  tail = refl;
  size_again = refl;
}

drain_hangs_example :
    drain (λ d src. process_dhav d src 24) collect never 1000 zero_queue [] [] ≡ endless
drain_hangs_example =
    drain_hangs collect never 24 1000 zero_queue zero_queue [] [] (unfold load in refl)
      zero_queue-ZeroFrame

abbrev raw_queue : Dstf
raw_queue = record { sq = replicate 16 0; sq_offs = 0; sq_len = 0; sq_maxlen = 16 }

-- A frame of five bytes, and the front of the next.
abbrev raw_reads : List (List ℕ)
raw_reads = (0 ∷ 0 ∷ 1 ∷ 9 ∷ 9 ∷ 0 ∷ 0 ∷ 1 ∷ 7 ∷ 7 ∷ []) ∷ (8 ∷ []) ∷ []

run_raw_h264-ends_example :
    (run (λ q src. process_raw_h264 q src 16) collect never 17 raw_queue [] raw_reads ≢ no_end)
    × (run (λ q src. process_raw_h264 q src 16) collect never 17 raw_queue [] raw_reads ≢ crash)
run_raw_h264-ends_example =
    run_raw_h264-ends collect never 16 17 raw_queue [] raw_reads
      (record { whole = refl; inside = omega arith; small = omega arith }) (omega arith)
      (omega arith, (omega arith, tt))

process_raw_h264-Kept_example :
    ((32 < 29) × (process_raw_h264 queue32 (1 ∷ []) 24 ≡ done queue32 [] (minus 1)))
    ⊎ ((q : Dstf) × Loaded queue32 (1 ∷ []) q × KeptRaw q (process_raw_h264 queue32 (1 ∷ []) 24))
process_raw_h264-Kept_example =
    process_raw_h264-Kept queue32 (1 ∷ []) 24 queue32-IsValid (omega arith)

-- Three bytes round the end of a buffer of four.
abbrev ring4 : Fifo
ring4 = record {
  bsize = 4;
  use_wmin = false;
  assume_fd_ready = false;
  wmin = 0;
  b = 30 ∷ 0 ∷ 10 ∷ 20 ∷ [];
  dlen = 3;
  dpos = 2;
}

ring4-IsValid : tani_dvr.Fifo.Contents.IsValid ring4
ring4-IsValid = record {
  whole = refl;
  small = omega arith;
  start_in = omega arith;
  len_in = omega arith;
}

-- One byte a call, and two.
abbrev give : ℕ → ReadReply
give zero = bytes []
give (suc n) = bytes (40 ∷ [])

give-IsRead : IsRead give
give-IsRead zero xs e = ground (arith, e)
give-IsRead (suc n) xs e = ground (arith, e)

abbrev accept : List ℕ → WriteReply
accept xs = took (length xs)

accept-IsWrite : IsWrite accept
accept-IsWrite xs n e = ground (arith, e)

fd_to_fifo-Filled_example : Filled ring4 (fd_to_fifo ring4 ready give give)
fd_to_fifo-Filled_example =
    fd_to_fifo-Filled ring4 ready give give ring4-IsValid give-IsRead give-IsRead

fifo_to_fd-Flushed_example : Flushed ring4 (fifo_to_fd ring4 ready accept accept)
fifo_to_fd-Flushed_example =
    fifo_to_fd-Flushed ring4 ready accept accept ring4-IsValid accept-IsWrite accept-IsWrite

abbrev flow4 : Flow
flow4 = record { fifo = ring4; received = 10 ∷ 20 ∷ 30 ∷ []; sent = [] }

abbrev wake4 : Wake
wake4 = record {
  retp = woke;
  p_out = able;
  p_in = able;
  sigchld = false;
  wr = accept;
  wr' = accept;
  rd = give;
  rd' = give;
}

wake4-Honest : Honest wake4
wake4-Honest = record {
  reads = give-IsRead;
  reads' = give-IsRead;
  writes = accept-IsWrite;
  writes' = accept-IsWrite;
}

buffered_tunnel_pipe-Ordered_example :
    OrderedNext (buffered_tunnel_pipe true flow4 (wake4 ∷ wake4 ∷ []))
buffered_tunnel_pipe-Ordered_example =
    buffered_tunnel_pipe-Ordered true flow4 (wake4 ∷ wake4 ∷ [])
      (record { valid = ring4-IsValid; order = refl }) (wake4-Honest, (wake4-Honest, tt))

lm2nv_u32-nv2lm_u32_example :
    lm2nv_u32 (splice (7 ∷ 7 ∷ 7 ∷ 7 ∷ 7 ∷ []) 1 (nv2lm_u32 (2 ^ 31 + 5))) 1 ≡ 2 ^ 31 + 5
lm2nv_u32-nv2lm_u32_example =
    lm2nv_u32-nv2lm_u32 (7 ∷ 7 ∷ 7 ∷ 7 ∷ 7 ∷ []) 1 (2 ^ 31 + 5) (omega arith) (omega arith)

mm_value-nv2mm_u64_example : mm_value 0 (nv2mm_u64 (2 ^ 63 + 9)) ≡ 2 ^ 63 + 9
mm_value-nv2mm_u64_example = mm_value-nv2mm_u64 (2 ^ 63 + 9) (omega arith)

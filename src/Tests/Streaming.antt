-- ===== src/Tests/Streaming.antt =====
-- The theorems on the processes that stream from a DVR, at short inputs.
use tani_dvr.Prelude.Int.{minus}
use tani_dvr.BinTools.{lm2nv_u32}
use tani_dvr.Link.Messages.{Message, IsMessage, encode}
use tani_dvr.Devinfo.{Devinfo, di_vs_undefined, di_ve_undefined, di_mwp_undefined, di_hd_undefined}
use tani_dvr.Protocol.{HlpConnection}
use tani_dvr.Fifo.{Fifo, WriteReply, took, ReadReply, bytes}
use tani_dvr.Fifo.Contents.{IsRead, IsWrite}
use tani_dvr.Tunnel.{Wake, woke, able}
use tani_dvr.Tunnel.Order.{Honest}
use tani_dvr.Session.{DvrControl, Seen, Round, stream_media_dvr_to_pipe}
use tani_dvr.Session.Prefix.{Piece, IsPiece, data_stream, WritesAll}
use tani_dvr.Session.Order.{Delivered, stream_media_dvr_to_pipe-Delivered}
use tani_dvr.Session.Relay.{Child, stream_dvr_subprocess_to_pipe}
use tani_dvr.Session.Relay.Bytes.{OrderedRelayed, stream_dvr_subprocess_to_pipe-OrderedRelayed}
use tani_dvr.Prelude.{
  List, Option, [], ap, arith, false, length, length-replicate, none, refl, replicate, set, some,
  suc, sym, true, zero, ℕ, ◌++◌, ◌∷◌, ◌≡◌,
}

-- With two bytes behind its header.
abbrev reply : ℕ → Message
reply command = record { head = set (set (replicate 32 0) 0 command) 4 2; ext = 65 ∷ 66 ∷ [] }

reply-IsMessage : (command : ℕ) → IsMessage (reply command)
unfolding lm2nv_u32
reply-IsMessage command = record { size = refl; shown = refl; small = omega arith }

abbrev piece : Piece
piece = record { others = reply 1 ∷ []; media = reply 188 }

piece-IsPiece : IsPiece piece
piece-IsPiece = record {
  skipped = ((reply-IsMessage 1, refl), tt);
  whole = reply-IsMessage 188;
  kind = refl;
  good = refl;
  small = omega arith;
}

-- The control connection answers the login and the first NOP.
abbrev control : HlpConnection
control = record {
  conn = record {
    incoming = encode (reply 176) ++ encode (reply 177);
    outgoing = [];
    room = 100_000;
  };
  unique_login_symbol = 0;
}

abbrev media : HlpConnection
media = record {
  conn = record { incoming = data_stream (piece ∷ piece ∷ []); outgoing = []; room = 100_000 };
  unique_login_symbol = 0;
}

abbrev dvrctl : DvrControl
dvrctl = record {
  user = 97 ∷ [];
  passwd = 98 ∷ [];
  channel = 0;
  sub_channel = 0;
  keep_alive_us = 0;
  timeout_us = 0;
  net_protocol_dialect = 0;
}

abbrev device : Devinfo
device = record {
  video_sys = di_vs_undefined;
  video_enc = di_ve_undefined;
  mw_preview = di_mwp_undefined;
  n_channels = minus 1;
  dev_type = minus 1;
  dev_subtype = minus 1;
  hd_type = di_hd_undefined;
  dev_sn = [];
  dev_ver = [];
  dev_type_chipset = [];
  lang_sup = [];
  func_list = [];
  oem_info = [];
  netrun_stat = [];
  split_screen = [];
  func_capability = [];
  hd_part_cap = [];
  wi_alarm = [];
  access_url = [];
}

abbrev seen : Seen
seen = record { wrote = some 1_000_000; ka_over = false }

abbrev one_round : Round
one_round = record {
  waited = true;
  seen = seen ∷ [];
  control_checks = [];
  ka_over = false;
  to_over = false;
}

takes_frame : WritesAll (some 1_000_000)
unfolding WritesAll
takes_frame = omega arith

stream_media_dvr_to_pipe-Delivered_example : Delivered (piece ∷ piece ∷ []) (
    stream_media_dvr_to_pipe dvrctl
      (some control)
      (some media)
      device
      (some 1_000_000)
      (one_round ∷ []))
stream_media_dvr_to_pipe-Delivered_example =
    stream_media_dvr_to_pipe-Delivered (piece ∷ piece ∷ []) dvrctl (some control) (some media)
      device (some 1_000_000) (one_round ∷ []) (piece-IsPiece, (piece-IsPiece, tt))
      (λ c e.
        ap (λ (c : Option HlpConnection). elim c [ none ↦ [] | some c ↦ c.conn.incoming ]) (sym e))
      takes_frame ((takes_frame, tt), tt)

-- One byte a read; a write takes all.
abbrev one_byte : ℕ → ReadReply
one_byte zero = bytes []
one_byte (suc n) = bytes (40 ∷ [])

one_byte-IsRead : IsRead one_byte
one_byte-IsRead zero xs e = ground (arith, e)
one_byte-IsRead (suc n) xs e = ground (arith, e)

abbrev whole : List ℕ → WriteReply
whole xs = took (length xs)

whole-IsWrite : IsWrite whole
whole-IsWrite xs n e = ground (arith, e)

abbrev waking : Wake
waking = record {
  retp = woke;
  p_out = able;
  p_in = able;
  sigchld = false;
  wr = whole;
  wr' = whole;
  rd = one_byte;
  rd' = one_byte;
}

waking-Honest : Honest waking
waking-Honest = record {
  reads = one_byte-IsRead;
  reads' = one_byte-IsRead;
  writes = whole-IsWrite;
  writes' = whole-IsWrite;
}

abbrev no_fifo : Fifo
no_fifo = record {
  bsize = 0;
  use_wmin = true;
  assume_fd_ready = false;
  wmin = 0;
  b = [];
  dlen = 0;
  dpos = 0;
}

unfoldable ring : List ℕ
ring = replicate 1_048_576 0

length-ring : length ring ≡ 1_048_576
unfolding ring
length-ring = length-replicate {0} {A = ℕ} 1_048_576 0

-- The second child cannot be started.
abbrev children : List Child
children =
    record {
      forked = true;
      wakes = waking ∷ record waking { retp = tani_dvr.Tunnel.PollRet.timed_out } ∷ [];
    }
    ∷ record { forked = false; wakes = [] }
    ∷ []

stream_dvr_subprocess_to_pipe-OrderedRelayed_example :
    OrderedRelayed (stream_dvr_subprocess_to_pipe true no_fifo (some ring) children waking)
stream_dvr_subprocess_to_pipe-OrderedRelayed_example =
    stream_dvr_subprocess_to_pipe-OrderedRelayed true no_fifo ring children waking length-ring
      (
        (
          waking-Honest,
          (
            record {
              reads = one_byte-IsRead;
              reads' = one_byte-IsRead;
              writes = whole-IsWrite;
              writes' = whole-IsWrite;
            },
            tt,
          ),
        ),
        (tt, tt),
      )
      waking-Honest

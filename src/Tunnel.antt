-- ===== src/Tunnel.antt =====
-- src/dvrcontrol.c, buffered_tunnel_pipe: bytes from one descriptor to another through the circular
-- buffer. Each round of the loop is driven by what `poll` and the descriptors answer.
pub mod Order
use tani_dvr.Prelude.{
  ==_iff, All, All-append, All-get_or, All-split, Bool, Bool-cases, List, Option, [], add-one, ap,
  append-nil, append_assoc, append_inj, arith, dec_lt, drop, drop-length_append, false, flatten,
  get_or, get_or-append, get_or-cons, get_or-past, get_or-set, get_or-splice, get_or-splice_in,
  get_or-splice_out, get_or-tabulate, if◌then◌else◌, inl, inr, leb, leb→le, length, length-append,
  length-drop, length-replicate, length-set, length-splice, length-tabulate, length-take, list_ext,
  ltb, ltb→le, ltb→lt, lt→ltb, map, none, not, refl, replicate, set, some, splice, sub_size, suc,
  sym, tabulate, tabulate-add, tabulate-get_or, tabulate_congr, take, take-append-drop,
  take-length_append, true, window, window-front, window_cut, window_total, window_split, zero, ℕ,
  ◌%◌, ◌&&◌, ◌*◌, ◌++◌, ◌+◌, ◌-◌, ◌/◌, ◌<◌, ◌==◌, ◌^◌, ◌||◌, ◌↔◌, ◌∙◌, ◌∷◌, ◌≡◌, ◌≢◌, ◌≤◌, ◌⊎◌,
}
use tani_dvr.Prelude.Int.{ℤ, pos, negsuc, minus}
use tani_dvr.Fifo.{Fifo, Step, PollReply, ready, ReadReply, WriteReply, fd_to_fifo, fifo_to_fd}

-- What `poll` returned: an error other than EINTR, an interruption, 0, or a number of descriptors.
pub data PollRet : Type 0 where
  failed interrupted timed_out woke : PollRet

-- The events of a descriptor: those asked for, POLLERR, POLLHUP or POLLNVAL, or neither.
pub data Revents : Type 0 where
  able collapsed quiet : Revents

-- One round's answers; `sigchld` is the flag that the signal handler sets.
pub record Wake : Type 0 where
  pub retp : PollRet
  pub p_out : Revents
  pub p_in : Revents
  pub sigchld : Bool
  pub wr : List ℕ → WriteReply
  pub wr' : List ℕ → WriteReply
  pub rd : ℕ → ReadReply
  pub rd' : ℕ → ReadReply

-- The buffer, and all the bytes read and written so far.
pub record Flow : Type 0 where
  pub fifo : Fifo
  pub received : List ℕ
  pub sent : List ℕ

-- After one round: the loop goes on, or the function returns.
pub data Next : Type 0 where
  go_on : Flow → Next
  leave : Flow → ℤ → Next

-- `ret <= -100`.
unfoldable pub is_fatal : ℤ → Bool
is_fatal (pos n) = false
is_fatal (negsuc n) = leb 99 n

unfoldable pub to_out : Flow → Wake → Flow × ℤ
to_out s w =
    let (f, out, ret) = fifo_to_fd s.fifo ready w.wr w.wr' in
    (record s { fifo = f; sent = s.sent ++ out }, ret)

unfoldable pub from_in : Flow → Wake → Flow × ℤ
from_in s w =
    let (f, got, ret) = fd_to_fifo s.fifo ready w.rd w.rd' in
    (record s { fifo = f; received = s.received ++ got }, ret)

-- fd_in -> FIFO.
unfoldable pub pass_in : Revents → Flow → Wake → Next
pass_in able s w =
    let (s', ret) = from_in s w in if is_fatal ret then leave s' (pos 3) else go_on s'
pass_in collapsed s w = leave s (pos 10)
pass_in quiet s w = go_on s

-- FIFO -> fd_out, first.
unfoldable pub pass_out : Revents → Flow → Wake → Next
pass_out able s w =
    let (s', ret) = to_out s w in if is_fatal ret then leave s' (pos 4) else pass_in w.p_in s' w
pass_out collapsed s w = leave s (minus 5)
pass_out quiet s w = pass_in w.p_in s w

unfoldable pub round : Bool → PollRet → Flow → Wake → Next
round has_timeout failed s w = leave s (pos 2)
round has_timeout timed_out s w =
    if has_timeout
    then leave s (pos 1)
    else if w.sigchld
    then leave s (pos 6)
    else pass_out w.p_out s w
round has_timeout interrupted s w = pass_out w.p_out s w
round has_timeout woke s w = pass_out w.p_out s w

-- The loop over the answers of the system; without further answers it still waits in `poll`.
unfoldable pub buffered_tunnel_pipe : Bool → Flow → List Wake → Next
buffered_tunnel_pipe has_timeout s [] = go_on s
buffered_tunnel_pipe has_timeout s (w ∷ ws) = elim (round has_timeout w.retp s w) [
  | go_on s' ↦ buffered_tunnel_pipe has_timeout s' ws
  | leave s' ret ↦ leave s' ret
]

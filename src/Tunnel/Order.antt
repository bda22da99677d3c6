-- ===== src/Tunnel/Order.antt =====
-- Nothing is lost, invented or reordered between the two descriptors.
use tani_dvr.Prelude.{
  All, Bool, Bool-cases, List, [], ap, append_assoc, false, if◌then◌else◌, inl, inr, sym, true,
  ◌++◌, ◌∙◌, ◌∷◌, ◌≡◌,
}
use tani_dvr.Prelude.Int.{pos}
use tani_dvr.Fifo.{ready, fd_to_fifo, fifo_to_fd}
use tani_dvr.Fifo.Contents.{IsValid, contents, IsRead, IsWrite, fd_to_fifo-Filled}
use tani_dvr.Fifo.Order.{fifo_to_fd-Flushed}
use tani_dvr.Tunnel.{
  PollRet, failed, interrupted, timed_out, woke, Revents, able, collapsed, quiet, Wake, Flow, Next,
  go_on, leave, is_fatal, to_out, from_in, pass_in, pass_out, round, buffered_tunnel_pipe,
}

-- All that came in is what went out, followed by what the buffer holds.
pub record Ordered (s : Flow) : Type 0 where
  pub valid : IsValid s.fifo
  pub order : s.received ≡ s.sent ++ contents s.fifo

-- The answers of one round keep what the system promises.
pub record Honest (w : Wake) : Type 0 where
  pub reads : IsRead w.rd
  pub reads' : IsRead w.rd'
  pub writes : IsWrite w.wr
  pub writes' : IsWrite w.wr'

abbrev pub OrderedNext : Next → Type 0
OrderedNext (go_on s) = Ordered s
OrderedNext (leave s ret) = Ordered s

pub to_out-Ordered : (s : Flow) (w : Wake) → Honest w → Ordered s → Ordered (to_out s w).0
unfolding to_out
to_out-Ordered s w h o =
    let (v, same, e) = fifo_to_fd-Flushed s.fifo ready w.wr w.wr' o.valid h.writes h.writes' in
    let step = fifo_to_fd s.fifo ready w.wr w.wr' in
    record {
      valid = v;
      order = o.order ∙ ap (◌++◌ s.sent) e ∙ sym (append_assoc s.sent step.1 (contents step.0));
    }

from_in-Ordered : (s : Flow) (w : Wake) → Honest w → Ordered s → Ordered (from_in s w).0
unfolding from_in
from_in-Ordered s w h o =
    let (v, same, e) = fd_to_fifo-Filled s.fifo ready w.rd w.rd' o.valid h.reads h.reads' in
    let step = fd_to_fifo s.fifo ready w.rd w.rd' in
    record {
      valid = v;
      order =
          ap (λ l. l ++ step.1) o.order
          ∙ append_assoc s.sent (contents s.fifo) step.1
          ∙ ap (◌++◌ s.sent) (sym e);
    }

pass_in-Ordered :
    (r : Revents) (s : Flow) (w : Wake) → Honest w → Ordered s → OrderedNext (pass_in r s w)
unfolding pass_in
pass_in-Ordered able s w h o = elim (Bool-cases (is_fatal (from_in s w).1)) [
  | inl fatal ↦ rw fatal (from_in-Ordered s w h o)
  | inr fine ↦ rw fine (from_in-Ordered s w h o)
]
pass_in-Ordered collapsed s w h o = o
pass_in-Ordered quiet s w h o = o

pass_out-Ordered :
    (r : Revents) (s : Flow) (w : Wake) → Honest w → Ordered s → OrderedNext (pass_out r s w)
unfolding pass_out
pass_out-Ordered able s w h o = elim (Bool-cases (is_fatal (to_out s w).1)) [
  | inl fatal ↦ rw fatal (to_out-Ordered s w h o)
  | inr fine ↦ rw fine (pass_in-Ordered w.p_in (to_out s w).0 w h (to_out-Ordered s w h o))
]
pass_out-Ordered collapsed s w h o = o
pass_out-Ordered quiet s w h o = pass_in-Ordered w.p_in s w h o

round-Ordered :
    (has_timeout : Bool) (p : PollRet) (s : Flow) (w : Wake)
    → Honest w
    → Ordered s
    → OrderedNext (round has_timeout p s w)
unfolding round
round-Ordered has_timeout failed s w h o = o
round-Ordered true timed_out s w h o = o
round-Ordered false timed_out s w h o =
    either w.sigchld (leave s (pos 6)) (pass_out w.p_out s w) o (pass_out-Ordered w.p_out s w h o)
  where
    either :
        (c : Bool) (m n : Next) → OrderedNext m → OrderedNext n → OrderedNext (if c then m else n)
    either true m n hm hn = hm
    either false m n hm hn = hn
round-Ordered has_timeout interrupted s w h o = pass_out-Ordered w.p_out s w h o
round-Ordered has_timeout woke s w h o = pass_out-Ordered w.p_out s w h o

-- For any answers of poll, read and write that keep to what was asked, over any number of rounds of
-- buffered_tunnel_pipe and however it is left: the bytes read so far are the bytes written so far
-- followed by what the buffer holds.
pub buffered_tunnel_pipe-Ordered :
    (has_timeout : Bool) (s : Flow) (ws : List Wake)
    → Ordered s
    → All Honest ws
    → OrderedNext (buffered_tunnel_pipe has_timeout s ws)
unfolding buffered_tunnel_pipe
buffered_tunnel_pipe-Ordered has_timeout s [] o h = o
buffered_tunnel_pipe-Ordered has_timeout s (w ∷ ws) o h =
    later (round has_timeout w.retp s w) (round-Ordered has_timeout w.retp s w h.0 o)
      (λ s' o'. buffered_tunnel_pipe-Ordered has_timeout s' ws o' h.1)
  where
    later :
        (n : Next)
        → OrderedNext n
        → ((s' : Flow) → Ordered s' → OrderedNext (buffered_tunnel_pipe has_timeout s' ws))
        → OrderedNext (elim n [
          | go_on s' ↦ buffered_tunnel_pipe has_timeout s' ws
          | leave s' ret ↦ leave s' ret
        ])
    later (go_on s') o' f = f s' o'
    later (leave s' ret) o' f = o'

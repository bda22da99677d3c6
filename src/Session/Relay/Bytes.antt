-- ===== src/Session/Relay/Bytes.antt =====
-- No byte is lost, repeated or moved when the process that talks to the DVR is started again.
use tani_dvr.Session.Relay.{stream_dvr_subprocess_to_pipe}
use tani_dvr.Fifo.{Fifo, create}
use tani_dvr.Fifo.{Fifo, create}
use tani_dvr.Stream.{is_negative}
use tani_dvr.Tunnel.{Flow, Wake, Next, go_on, leave, buffered_tunnel_pipe}
use tani_dvr.Tunnel.Order.{
  Ordered, OrderedNext, Honest, to_out-Ordered, buffered_tunnel_pipe-Ordered,
}
use tani_dvr.Session.Relay.{
  Child, Relayed, relaying, given_up, after_child, relay, flush_rest, stream_dvr_subprocess_to_pipe,
}
use tani_dvr.Prelude.{
  All, Bool, List, [], arith, false, if_cases, length, not, refl, some, ℕ, ◌∷◌, ◌≡◌,
}

-- What came in, from whichever child, is what went out and what the buffer holds.
unfoldable pub OrderedRelayed : Relayed → Type 0
OrderedRelayed (relaying s) = Ordered s
OrderedRelayed (given_up s retcode) = Ordered s

after_child-OrderedRelayed :
    (n : Next) (again : Flow → Relayed)
    → OrderedNext n
    → ((s : Flow) → Ordered s → OrderedRelayed (again s))
    → OrderedRelayed (after_child n again)
unfolding after_child OrderedRelayed
after_child-OrderedRelayed (go_on s) again o f = o
after_child-OrderedRelayed (leave s rettp) again o f =
    if_cases OrderedRelayed (is_negative rettp) (λ e. o) (λ e. f s o)

relay-OrderedRelayed :
    (has_timeout : Bool) (children : List Child) (s : Flow)
    → All (λ c. All Honest c.wakes) children
    → Ordered s
    → OrderedRelayed (relay has_timeout s children)
unfolding relay OrderedRelayed
relay-OrderedRelayed has_timeout [] s a o = o
relay-OrderedRelayed has_timeout (child ∷ children) s a o =
    if_cases OrderedRelayed (not child.forked) (λ e. o)
      (λ e.
        after_child-OrderedRelayed (buffered_tunnel_pipe has_timeout s child.wakes)
          (λ s'. relay has_timeout s' children)
          (buffered_tunnel_pipe-Ordered has_timeout s child.wakes o a.0)
          (λ s' o'. relay-OrderedRelayed has_timeout children s' a.1 o'))

flush_rest-OrderedRelayed :
    (last : Wake) (r : Relayed)
    → Honest last
    → OrderedRelayed r
    → OrderedRelayed (flush_rest last r)
unfolding flush_rest OrderedRelayed
flush_rest-OrderedRelayed last (relaying s) h o = o
flush_rest-OrderedRelayed last (given_up s retcode) h o =
    to_out-Ordered (record s { fifo = record s.fifo { use_wmin = false } }) last h
      (record {
        valid = record {
          whole = o.valid.whole;
          small = o.valid.small;
          start_in = o.valid.start_in;
          len_in = o.valid.len_in;
        };
        order = o.order;
      })

-- For a buffer of 1,048,576 bytes and any answers of poll, read and write that keep to what was
-- asked, over any number of children that are started one after the other, also when it gives up and
-- flushes the buffer: all bytes read from the children are those written to the parent, in order,
-- followed by what the buffer holds.
pub stream_dvr_subprocess_to_pipe-OrderedRelayed :
    (has_timeout : Bool) (block_r : Fifo) (block : List ℕ) (children : List Child) (last : Wake)
    → length block ≡ 1_048_576
    → All (λ c. All Honest c.wakes) children
    → Honest last
    → OrderedRelayed (stream_dvr_subprocess_to_pipe has_timeout block_r (some block) children last)
unfolding stream_dvr_subprocess_to_pipe create
stream_dvr_subprocess_to_pipe-OrderedRelayed has_timeout block_r block children last size a h =
    flush_rest-OrderedRelayed last _ h (
      relay-OrderedRelayed has_timeout children _ a (record {
        valid = record {
          whole = size;
          small = omega arith;
          start_in = omega arith;
          len_in = omega arith;
        };
        order = refl;
      }))

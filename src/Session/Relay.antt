-- ===== src/Session/Relay.antt =====
-- src/dvrcontrol.c, stream_dvr_subprocess_to_pipe: the process between the one that talks to the DVR
-- and the one that writes the file. It starts the former over and over, with one buffer for all.
pub mod Bytes
use tani_dvr.Prelude.Int.{ℤ, pos}
use tani_dvr.Fifo.{Fifo, create}
use tani_dvr.Stream.{is_negative}
use tani_dvr.Tunnel.{Flow, Wake, Next, go_on, leave, to_out, buffered_tunnel_pipe}
use tani_dvr.Prelude.{
  ==_iff, All, All-append, All-get_or, All-split, Bool, Bool-cases, List, Option, [], add-one, ap,
  append-nil, append_assoc, append_inj, arith, dec_lt, drop, drop-drop, drop-length_append,
  drop-past, false, flatten, get_or, get_or-append, get_or-cons, get_or-past, get_or-set,
  get_or-splice, get_or-splice_in, get_or-splice_out, get_or-tabulate, if_cases, if_false, if_true,
  if◌then◌else◌, inl, inr, leb, leb→le, length, length-append, length-drop, length-replicate,
  length-set, length-splice, length-tabulate, length-take, list_ext, ltb, ltb→le, ltb→lt, lt→ltb,
  map, none, not, refl, replicate, set, some, splice, sub_size, suc, sym, tabulate, tabulate-add,
  tabulate-get_or, tabulate_congr, take, take-append-drop, take-length_append, take-past, true,
  window, window-front, window_cut, window_split, window_total, zero, ℕ, ◌%◌, ◌&&◌, ◌*◌, ◌++◌, ◌+◌,
  ◌-◌, ◌/◌, ◌<◌, ◌==◌, ◌^◌, ◌||◌, ◌↔◌, ◌∙◌, ◌∷◌, ◌≡◌, ◌≢◌, ◌≤◌, ◌⊎◌,
}

-- One child: whether the pipe and the fork succeed, and the answers of the system while its data are
-- passed on.
pub record Child : Type 0 where
  pub forked : Bool
  pub wakes : List Wake

-- The outcome so far: the loop goes on, or it was left with `retcode`.
pub data Relayed : Type 0 where
  relaying : Flow → Relayed
  given_up : Flow → ℕ → Relayed

-- `rettp < 0` of buffered_tunnel_pipe gives up; else the child is destroyed and there is another.
unfoldable pub after_child : Next → (Flow → Relayed) → Relayed
after_child (go_on s) again = relaying s
after_child (leave s rettp) again = if is_negative rettp then given_up s 102 else again s

unfoldable pub relay : Bool → Flow → List Child → Relayed
relay has_timeout s [] = relaying s
relay has_timeout s (child ∷ children) =
    if not child.forked
    then given_up s 100
    else after_child (buffered_tunnel_pipe has_timeout s child.wakes)
        (λ s'. relay has_timeout s' children)

-- Behind the loop the buffer is flushed, without its lower mark; `last` has the answers to `write`.
unfoldable pub flush_rest : Wake → Relayed → Relayed
flush_rest last (relaying s) = relaying s
flush_rest last (given_up s retcode) =
    given_up (to_out (record s { fifo = record s.fifo { use_wmin = false } }) last).0 retcode

-- `block` is what `malloc` returned to btfifo_create.
unfoldable pub stream_dvr_subprocess_to_pipe :
    Bool → Fifo → Option (List ℕ) → List Child → Wake → Relayed
stream_dvr_subprocess_to_pipe has_timeout block_r block children last =
    let btfifo = record block_r { bsize = 1_048_576; use_wmin = false; assume_fd_ready = true } in
    let (f, failed) = create btfifo block in
    let s : Flow = record { fifo = f; received = []; sent = [] } in
    elim block [ none ↦ given_up s 101 | some b ↦ flush_rest last (relay has_timeout s children) ]

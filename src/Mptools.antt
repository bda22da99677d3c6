-- ===== src/Mptools.antt =====
-- src/mptools.h and src/mptools.c: two pipes and a fork, from the side of one process, over what `pipe`
-- and `fork` answer.
pub mod Balance
use tani_dvr.Prelude.{
  ==_iff, All, All-append, All-get_or, All-split, Bool, Bool-cases, List, Option, [], add-one, ap,
  append-nil, append_assoc, append_inj, arith, dec_lt, drop, drop-drop, drop-length_append,
  drop-past, false, flatten, get_or, get_or-append, get_or-cons, get_or-past, get_or-set,
  get_or-splice, get_or-splice_in, get_or-splice_out, get_or-tabulate, if_cases, if_false, if_true,
  if◌then◌else◌, inl, inr, leb, leb→le, length, length-append, length-drop, length-replicate,
  length-set, length-splice, length-tabulate, length-take, list_ext, ltb, ltb→le, ltb→lt, lt→ltb,
  map, none, not, refl, replicate, set, some, splice, sub_size, suc, sym, tabulate, tabulate-add,
  tabulate-get_or, tabulate_congr, take, take-append-drop, take-length_append, take-past, true,
  window, window-front, window_cut, window_split, window_total, zero, ℕ, ◌%◌, ◌&&◌, ◌*◌, ◌++◌, ◌+◌,
  ◌-◌, ◌/◌, ◌<◌, ◌==◌, ◌^◌, ◌||◌, ◌↔◌, ◌∙◌, ◌∷◌, ◌≡◌, ◌≢◌, ◌≤◌, ◌⊎◌,
}
use tani_dvr.Prelude.Int.{ℤ, pos, minus}
use tani_dvr.Convert.{is_zero}
use tani_dvr.Recording.{is_minus_one}

-- `mptools_pipedfork_t`.
pub record Pipedfork : Type 0 where
  pub fd_read : ℕ
  pub fd_write : ℕ
  pub child_pid : ℤ
  pub wait_status : ℕ

-- The descriptors that are open in the process, the processes that it sent SIGTERM, in order, the last
-- first, and those it has waited for.
pub record Side : Type 0 where
  pub opened : ℕ → Bool
  pub terminated : List ℤ
  pub waited : List ℤ
  pub pipedfork : Pipedfork

-- `[0]` is for reading, `[1]` for writing.
abbrev pub Pipe : Type 0
Pipe = ℕ × ℕ

abbrev pub with_descriptor : ℕ → Bool → Side → Side
with_descriptor fd b s = record s { opened = λ x. if x == fd then b else s.opened x }

abbrev pub close : ℕ → Side → Side
close fd s = with_descriptor fd false s

-- `pipe` has succeeded.
abbrev pub with_pipe : Pipe → Side → Side
with_pipe (r, w) s = with_descriptor w true (with_descriptor r true s)

-- `fork` has answered `forked`.
unfoldable pub forked_with : Pipe → Pipe → ℤ → Side → Side × ℤ
forked_with (r1, w1) (r2, w2) forked s =
    let s' = record s { pipedfork = record s.pipedfork { child_pid = forked } } in
    if is_minus_one forked
    then (close w1 (close r1 (close w2 (close r2 s'))), minus 1)
    else if is_zero forked
    then (
      record (close w2 (close r1 s')) {
        pipedfork = record s'.pipedfork { fd_read = r2; fd_write = w1 };
      },
      pos 0,
    )
    else (
      record (close r2 (close w1 s')) {
        pipedfork = record s'.pipedfork { fd_read = r1; fd_write = w2 };
      },
      forked,
    )

unfoldable pub second_pipe : Pipe → Option Pipe → ℤ → Side → Side × ℤ
second_pipe (r1, w1) none forked s = (close w1 (close r1 s), minus 1)
second_pipe tpp1 (some tpp2) forked s = forked_with tpp1 tpp2 forked (with_pipe tpp2 s)

unfoldable pub first_pipe : Option Pipe → Option Pipe → ℤ → Side → Side × ℤ
first_pipe none tpp2 forked s = (s, minus 1)
first_pipe (some tpp1) tpp2 forked s = second_pipe tpp1 tpp2 forked (with_pipe tpp1 s)

unfoldable pub mptools_create_pipedfork : Option Pipe → Option Pipe → ℤ → Side → Side × ℤ
mptools_create_pipedfork tpp1 tpp2 forked s =
    first_pipe tpp1 tpp2 forked (record s { pipedfork = record s.pipedfork { wait_status = 0 } })

-- What `waitpid` answers with WNOHANG, and the status it leaves.
unfoldable pub mptools_check_pipedfork_child : ℤ → ℕ → Side → Side × Bool
mptools_check_pipedfork_child answer status s =
    (record s { pipedfork = record s.pipedfork { wait_status = status } }, is_zero answer)

unfoldable pub mptools_child_close_pipedfork : Side → Side
mptools_child_close_pipedfork s = close s.pipedfork.fd_write (close s.pipedfork.fd_read s)

unfoldable pub mptools_destroy_pipedfork : ℕ → Side → Side
mptools_destroy_pipedfork status s =
    let closed = close s.pipedfork.fd_write (close s.pipedfork.fd_read s) in
    record closed {
      terminated = s.pipedfork.child_pid ∷ s.terminated;
      waited = s.pipedfork.child_pid ∷ s.waited;
      pipedfork = record s.pipedfork { wait_status = status };
    }

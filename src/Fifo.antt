-- ===== src/Fifo.antt =====
-- src/bufftools.h and src/bufftools.c: the circular byte buffer `btfifo_t` between two descriptors.
-- `poll`, `read` and `write` are the system's: their answers are arguments. Each call also gives the
-- bytes that it took from, or put into, the descriptor.
pub mod Contents
pub mod Order
use tani_dvr.Prelude.{
  ==_iff, All, All-append, All-get_or, All-split, Bool, Bool-cases, List, Option, [], add-one, ap,
  append-nil, append_assoc, append_inj, arith, dec_lt, drop, drop-length_append, false, flatten,
  get_or, get_or-append, get_or-cons, get_or-past, get_or-set, get_or-splice, get_or-splice_in,
  get_or-splice_out, get_or-tabulate, if◌then◌else◌, inl, inr, leb, leb→le, length, length-append,
  length-drop, length-replicate, length-set, length-splice, length-tabulate, length-take, list_ext,
  ltb, ltb→le, ltb→lt, lt→ltb, map, none, not, refl, replicate, set, some, splice, sub_size, suc,
  sym, tabulate, tabulate-add, tabulate-get_or, tabulate_congr, take, take-append-drop,
  take-length_append, true, window, window-front, window_cut, window_total, window_split, zero, ℕ,
  ◌%◌, ◌&&◌, ◌*◌, ◌++◌, ◌+◌, ◌-◌, ◌/◌, ◌<◌, ◌==◌, ◌^◌, ◌||◌, ◌↔◌, ◌∙◌, ◌∷◌, ◌≡◌, ◌≢◌, ◌≤◌, ◌⊎◌,
}
use tani_dvr.Prelude.Int.{ℤ, pos, minus}

-- The two flag bits are fields. The `pollfd` pair only carries the arguments of `poll`.
pub record Fifo : Type 0 where
  pub bsize : ℕ
  pub use_wmin : Bool
  pub assume_fd_ready : Bool
  pub wmin : ℕ
  pub b : List ℕ
  pub dlen : ℕ
  pub dpos : ℕ

-- `btfifo_create` with the block that `malloc` returned; without one it returns 1.
unfoldable pub create : Fifo → Option (List ℕ) → Fifo × ℤ
create f none = (f, pos 1)
create f (some block) = (record f { b = block; dlen = 0; dpos = 0 }, pos 0)

-- `poll`: an error; POLLERR, POLLHUP or POLLNVAL; neither.
pub data PollReply : Type 0 where
  poll_error hung_up ready : PollReply

-- `read`: bytes (none at the end of the file); EAGAIN and its like; another error.
pub data ReadReply : Type 0 where
  bytes : List ℕ → ReadReply
  no_data read_error : ReadReply

-- `write`: how many bytes it took.
pub data WriteReply : Type 0 where
  took : ℕ → WriteReply
  no_room write_error : WriteReply

-- What a call does: the new state, the bytes that passed the descriptor, the return value.
abbrev pub Step : Type 0
Step = Fifo × List ℕ × ℤ

-- `read (fd, wpos, f_len)` stored `xs` at `wpos`.
unfoldable pub store : Fifo → ℕ → List ℕ → Fifo
store f wpos xs = record f { b = splice f.b wpos xs; dlen = f.dlen + length xs }

-- What follows the read into the only region, or into the second one, after `before`.
unfoldable pub after_read_last : Fifo → List ℕ → ℕ → ReadReply → Step
after_read_last f before wpos no_data = (f, before, minus 1)
after_read_last f before wpos read_error = (f, before, minus 1401)
after_read_last f before wpos (bytes []) = (f, before, pos 0)
after_read_last f before wpos (bytes (x ∷ xs)) =
    (store f wpos (x ∷ xs), before ++ (x ∷ xs), pos (length (x ∷ xs)))

unfoldable pub read_last : Fifo → List ℕ → (ℕ → ReadReply) → Step
read_last f before rd =
    let f_len = sub_size f.bsize f.dlen in
    let wpos = if f.dpos == 0 then f.dlen else sub_size f.dpos f_len in
    after_read_last f before wpos (rd f_len)

-- What follows the read into the region of `f_len` bytes behind the data.
unfoldable pub after_read_first : Fifo → ℕ → (ℕ → ReadReply) → ReadReply → Step
after_read_first f f_len rd' no_data = (f, [], minus 1)
after_read_first f f_len rd' read_error = (f, [], minus 1301)
after_read_first f f_len rd' (bytes []) = (f, [], pos 0)
after_read_first f f_len rd' (bytes (x ∷ xs)) =
    let f' = store f (f.dpos + f.dlen) (x ∷ xs) in
    if not (length (x ∷ xs) == f_len)
    then (f', x ∷ xs, pos (length (x ∷ xs)))
    else read_last f' (x ∷ xs) rd'

unfoldable pub read_first : Fifo → (ℕ → ReadReply) → (ℕ → ReadReply) → Step
read_first f rd rd' =
    let f_len = sub_size f.bsize (f.dpos + f.dlen) in after_read_first f f_len rd' (rd f_len)

unfoldable pub fill : Fifo → (ℕ → ReadReply) → (ℕ → ReadReply) → Step
fill f rd rd' =
    if sub_size f.bsize f.dlen == 0
    then (f, [], minus 2)
    else if not (f.dpos == 0) && ltb (f.dpos + f.dlen) f.bsize
    then read_first f rd rd'
    else read_last f [] rd

-- The test of the descriptor before the call proper, left out under BTFIFO_F_ASSUME_FD_READY.
unfoldable pub polled : Fifo → Bool → PollReply → ℤ → Step → Step
polled f true poll collapsed rest = rest
polled f false poll_error collapsed rest = (f, [], minus 103)
polled f false hung_up collapsed rest = (f, [], collapsed)
polled f false ready collapsed rest = rest

-- `btfifo_fd_to_fifo`; a second `read` is answered by the second function.
unfoldable pub fd_to_fifo : Fifo → PollReply → (ℕ → ReadReply) → (ℕ → ReadReply) → Step
fd_to_fifo f poll rd rd' = polled f f.assume_fd_ready poll (minus 1201) (fill f rd rd')

-- What follows the write of the only region, or of the second one, after `before`. The code resets
-- `dpos` for an empty buffer before it lowers `dlen`.
unfoldable pub after_write_last : Fifo → List ℕ → WriteReply → Step
after_write_last f before no_room = (f, before, minus 1)
after_write_last f before write_error = (f, before, minus 101)
after_write_last f before (took zero) = (f, before, pos 0)
after_write_last f before (took (suc k)) =
    let n = suc k in
    let reset = if f.dlen == 0 then 0 else f.dpos in
    let dpos' = if reset + n == f.bsize then 0 else reset + n in
    (record f { dlen = sub_size f.dlen n; dpos = dpos' }, before ++ window f.b f.dpos n, pos n)

unfoldable pub write_last : Fifo → List ℕ → (List ℕ → WriteReply) → Step
write_last f before wr = after_write_last f before (wr (window f.b f.dpos f.dlen))

-- What follows the write of the `u_len` bytes up to the end of the buffer.
unfoldable pub after_write_first : Fifo → ℕ → (List ℕ → WriteReply) → WriteReply → Step
after_write_first f u_len wr' no_room = (f, [], minus 1)
after_write_first f u_len wr' write_error = (f, [], minus 101)
after_write_first f u_len wr' (took zero) = (f, [], pos 0)
after_write_first f u_len wr' (took (suc k)) =
    let n = suc k in
    let sent = window f.b f.dpos n in
    if not (n == u_len)
    then (record f { dlen = sub_size f.dlen n; dpos = f.dpos + n }, sent, pos n)
    else write_last (record f { dlen = sub_size f.dlen n; dpos = 0 }) sent wr'

unfoldable pub write_first : Fifo → (List ℕ → WriteReply) → (List ℕ → WriteReply) → Step
write_first f wr wr' =
    let u_len = sub_size f.bsize f.dpos in
    after_write_first f u_len wr' (wr (window f.b f.dpos u_len))

unfoldable pub flush : Fifo → (List ℕ → WriteReply) → (List ℕ → WriteReply) → Step
flush f wr wr' =
    if f.dlen == 0
    then (f, [], pos 0)
    else if f.use_wmin && ltb f.dlen f.wmin
    then (f, [], pos 0)
    else if not (f.dpos == 0) && ltb f.bsize (f.dpos + f.dlen)
    then write_first f wr wr'
    else write_last f [] wr

-- `btfifo_fifo_to_fd`.
unfoldable pub fifo_to_fd : Fifo → PollReply → (List ℕ → WriteReply) → (List ℕ → WriteReply) → Step
fifo_to_fd f poll wr wr' = polled f f.assume_fd_ready poll (minus 101) (flush f wr wr')

-- `btfifo_get_free_len` and `btfifo_get_stored_len`.
unfoldable pub get_free_len : Fifo → ℕ
get_free_len f = sub_size f.bsize f.dlen

unfoldable pub get_stored_len : Fifo → ℕ
get_stored_len f = f.dlen

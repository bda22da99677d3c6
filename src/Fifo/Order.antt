-- ===== src/Fifo/Order.antt =====
-- What leaves the buffer is the front of what it holds; over any run of calls the bytes come out in
-- the order in which they went in.
use tani_dvr.Prelude.Int.{ℤ, minus, pos}
use tani_dvr.Prelude.{
  Bool, Bool-cases, List, [], ap, append_assoc, arith, false, get_or, if◌then◌else◌, inl, inr,
  length-tabulate, ltb, not, refl, sub_size, suc, sym, tabulate, tabulate-add, tabulate_congr, true,
  window, zero, ℕ, ◌&&◌, ◌++◌, ◌+◌, ◌<◌, ◌==◌, ◌∙◌, ◌≡◌, ◌≤◌,
}
use tani_dvr.Fifo.{
  poll_error, hung_up, ready, Step, PollReply, after_write_first, write_last, polled, write_first,
  fifo_to_fd, flush, Fifo, WriteReply, took, no_room, write_error, after_write_last,
}
use tani_dvr.Fifo.Contents.{IsWrite, IsValid, wrap, contents, Flushed}

-- `n` bytes of one block at the front, sent and dropped.
module _ (f : Fifo) (n dpos' : ℕ) (v : IsValid f) (some_left : n ≤ f.dlen)
    (one_block : f.dpos + n ≤ f.bsize)
    (next : dpos' ≡ (if f.dpos + n == f.bsize then 0 else f.dpos + n)) where
  abbrev pub dropped : Fifo
  dropped = record f { dlen = sub_size f.dlen n; dpos = dpos' }

  dropped-IsValid : IsValid dropped
  dropped-IsValid = ground arith

  contents-dropped : contents f ≡ window f.b f.dpos n ++ contents dropped
  contents-dropped =
      let byte = λ (i : ℕ). get_or f.b (wrap f (f.dpos + i)) 0 in
      let byte' = λ (i : ℕ). get_or f.b (wrap dropped (dpos' + i)) 0 in
      let total : f.dlen ≡ n + sub_size f.dlen n = ground arith in
      let sent : tabulate n byte ≡ window f.b f.dpos n =
        tabulate_congr n byte (λ i. get_or f.b (f.dpos + i) 0)
          (λ i h.
            ap (λ k. get_or f.b k 0)
              (let e : wrap f (f.dpos + i) ≡ f.dpos + i = ground arith in e)) in
      let kept : tabulate (sub_size f.dlen n) (λ i. byte (n + i))
          ≡ tabulate (sub_size f.dlen n) byte' =
        tabulate_congr (sub_size f.dlen n) (λ i. byte (n + i)) byte'
          (λ i h.
            ap (λ k. get_or f.b k 0)
              (let e : wrap f (f.dpos + (n + i)) ≡ wrap dropped (dpos' + i) = ground arith in e)) in
      ap (λ k. tabulate k byte) total
      ∙ tabulate-add n (sub_size f.dlen n) byte
      ∙ (λ i. sent i ++ kept i)

after_write_last-Flushed :
    (g f : Fifo) (before : List ℕ) (r : WriteReply)
    → IsValid f
    → f.bsize ≡ g.bsize
    → contents g ≡ before ++ contents f
    → f.dpos + f.dlen ≤ f.bsize
    → ((n : ℕ) → r ≡ took n → n ≤ f.dlen)
    → Flushed g (after_write_last f before r)
unfolding after_write_last
after_write_last-Flushed g f before no_room v s e c w = (v, s, e)
after_write_last-Flushed g f before write_error v s e c w = (v, s, e)
after_write_last-Flushed g f before (took zero) v s e c w = (v, s, e)
after_write_last-Flushed g f before (took (suc k)) v s e c w =
    let n : ℕ = suc k in
    let some_left : n ≤ f.dlen = w n refl in
    let reset = if f.dlen == 0 then 0 else f.dpos in
    let dpos' = if reset + n == f.bsize then 0 else reset + n in
    let next : dpos' ≡ (if f.dpos + n == f.bsize then 0 else f.dpos + n) = ground arith in
    (
      dropped-IsValid f n dpos' v some_left (omega arith) next,
      s,
      e
          ∙ ap (◌++◌ before) (contents-dropped f n dpos' v some_left (omega arith) next)
          ∙ sym (
              append_assoc before (window f.b f.dpos n)
                (contents (dropped f n dpos' v some_left (omega arith) next))),
    )

write_last-Flushed :
    (g f : Fifo) (before : List ℕ) (wr : List ℕ → WriteReply)
    → IsValid f
    → f.bsize ≡ g.bsize
    → contents g ≡ before ++ contents f
    → f.dpos + f.dlen ≤ f.bsize
    → IsWrite wr
    → Flushed g (write_last f before wr)
unfolding write_last
write_last-Flushed g f before wr v s e c w =
    let offered = window f.b f.dpos f.dlen in
    after_write_last-Flushed g f before (wr offered) v s e c
      (λ n q. omega (arith, w offered n q, length-tabulate f.dlen (λ i. get_or f.b (f.dpos + i) 0)))

nothing_sent : (f : Fifo) (ret : ℤ) → IsValid f → Flushed f (f, [], ret)
nothing_sent f ret v = (v, refl, refl)

after_write_first-Flushed :
    (f : Fifo) (u_len : ℕ) (wr' : List ℕ → WriteReply) (r : WriteReply)
    → IsValid f
    → f.dpos + u_len ≡ f.bsize
    → f.bsize < f.dpos + f.dlen
    → IsWrite wr'
    → ((n : ℕ) → r ≡ took n → n ≤ u_len)
    → Flushed f (after_write_first f u_len wr' r)
unfolding after_write_first
after_write_first-Flushed f u_len wr' no_room v q h w' w = nothing_sent f (minus 1) v
after_write_first-Flushed f u_len wr' write_error v q h w' w = nothing_sent f (minus 101) v
after_write_first-Flushed f u_len wr' (took zero) v q h w' w = nothing_sent f (pos 0) v
after_write_first-Flushed f u_len wr' (took (suc k)) v q h w' w =
    let n : ℕ = suc k in
    let most : n ≤ u_len = w n refl in
    elim (Bool-cases (n == u_len)) [
      | inl all ↦
          let next : 0 ≡ (if f.dpos + n == f.bsize then 0 else f.dpos + n) = ground arith in
          let some_left : n ≤ f.dlen = omega arith in
          rw all (
            write_last-Flushed f (dropped f n 0 v some_left (omega arith) next)
              (window f.b f.dpos n) wr' (dropped-IsValid f n 0 v some_left (omega arith) next) refl
              (contents-dropped f n 0 v some_left (omega arith) next) (ground arith) w')
      | inr part ↦
          let next : f.dpos + n ≡ (if f.dpos + n == f.bsize then 0 else f.dpos + n) =
            ground arith in
          let some_left : n ≤ f.dlen = omega arith in
          rw part (
            dropped-IsValid f n (f.dpos + n) v some_left (omega arith) next,
            refl,
            contents-dropped f n (f.dpos + n) v some_left (omega arith) next,
          )
    ]

write_first-Flushed :
    (f : Fifo) (wr wr' : List ℕ → WriteReply)
    → IsValid f
    → f.bsize < f.dpos + f.dlen
    → IsWrite wr
    → IsWrite wr'
    → Flushed f (write_first f wr wr')
unfolding write_first
write_first-Flushed f wr wr' v h w w' =
    let u_len = sub_size f.bsize f.dpos in
    let offered = window f.b f.dpos u_len in
    after_write_first-Flushed f u_len wr' (wr offered) v (omega arith) h w'
      (λ n q. omega (arith, w offered n q, length-tabulate u_len (λ i. get_or f.b (f.dpos + i) 0)))

flush-Flushed :
    (f : Fifo) (wr wr' : List ℕ → WriteReply)
    → IsValid f
    → IsWrite wr
    → IsWrite wr'
    → Flushed f (flush f wr wr')
unfolding flush
flush-Flushed f wr wr' v w w' = elim (Bool-cases (f.dlen == 0)) [
  | inl empty ↦ rw empty (nothing_sent f (pos 0) v)
  | inr some_left ↦ rw some_left (elim (Bool-cases (f.use_wmin && ltb f.dlen f.wmin)) [
    | inl few ↦ rw few (nothing_sent f (pos 0) v)
    | inr enough ↦
        rw enough (elim (Bool-cases (not (f.dpos == 0) && ltb f.bsize (f.dpos + f.dlen))) [
          | inl two ↦ rw two (write_first-Flushed f wr wr' v (ground arith) w w')
          | inr one ↦
              rw one
                (write_last-Flushed f f [] wr v refl refl (ground (arith, v.start_in, v.len_in)) w)
        ])
  ])
]

polled-Flushed :
    (f : Fifo) (sure : Bool) (poll : PollReply) (collapsed : ℤ) (rest : Step)
    → IsValid f
    → Flushed f rest
    → Flushed f (polled f sure poll collapsed rest)
unfolding polled
polled-Flushed f true poll collapsed rest v h = h
polled-Flushed f false poll_error collapsed rest v h = nothing_sent f (minus 103) v
polled-Flushed f false hung_up collapsed rest v h = nothing_sent f collapsed v
polled-Flushed f false ready collapsed rest v h = h

-- On a valid buffer and for any answers of poll and write that take at most what was offered,
-- btfifo_fifo_to_fd keeps the buffer valid, and the bytes that were held are those that went out
-- followed by those held still.
pub fifo_to_fd-Flushed :
    (f : Fifo) (poll : PollReply) (wr wr' : List ℕ → WriteReply)
    → IsValid f
    → IsWrite wr
    → IsWrite wr'
    → Flushed f (fifo_to_fd f poll wr wr')
unfolding fifo_to_fd
fifo_to_fd-Flushed f poll wr wr' v w w' =
    polled-Flushed f f.assume_fd_ready poll (minus 101) (flush f wr wr') v
      (flush-Flushed f wr wr' v w w')

-- ===== src/Fifo/Contents.antt =====
-- The buffer as a queue of bytes, oldest first: each call appends what it read, or removes from the
-- front what it wrote.
use tani_dvr.Prelude.{
  Bool, Bool-cases, List, [], ap, append-nil, append_assoc, arith, dec_lt, false, get_or,
  get_or-splice_in, get_or-splice_out, if◌then◌else◌, inl, inr, length, length-splice, ltb, not,
  refl, splice, sub_size, sym, tabulate, tabulate-add, tabulate-get_or, tabulate_congr, true, ℕ,
  ◌&&◌, ◌++◌, ◌+◌, ◌-◌, ◌<◌, ◌==◌, ◌^◌, ◌∙◌, ◌∷◌, ◌≡◌, ◌≤◌, ◌⊎◌,
}
use tani_dvr.Prelude.Int.{ℤ, pos, minus}
use tani_dvr.Fifo.{
  polled, after_read_first, after_read_last, Fifo, Step, PollReply, poll_error, hung_up, ready,
  ReadReply, bytes, no_data, read_error, WriteReply, took, store, read_last, read_first, fill,
  fd_to_fifo,
}

pub record IsValid (f : Fifo) : Type 0 where
  pub whole : length f.b ≡ f.bsize
  pub small : f.bsize < 2 ^ 63
  pub start_in : f.dpos < f.bsize
  pub len_in : f.dlen ≤ f.bsize

-- The index `x`, round the end of the buffer.
abbrev pub wrap : Fifo → ℕ → ℕ
wrap f x = if ltb x f.bsize then x else x - f.bsize

abbrev pub contents : Fifo → List ℕ
contents f = tabulate f.dlen (λ i. get_or f.b (wrap f (f.dpos + i)) 0)

-- What the system promises: no more bytes than were asked for.
abbrev pub IsRead : (ℕ → ReadReply) → Type 0
IsRead rd = (n : ℕ) (xs : List ℕ) → rd n ≡ bytes xs → length xs ≤ n

-- What the system promises: no more bytes than were offered.
abbrev pub IsWrite : (List ℕ → WriteReply) → Type 0
IsWrite wr = (xs : List ℕ) (n : ℕ) → wr xs ≡ took n → n ≤ length xs

-- The call kept the buffer valid, and appended what it took from the descriptor.
abbrev pub Filled : Fifo → Step → Type 0
Filled f (f', got, ret) = IsValid f' × (f'.bsize ≡ f.bsize) × (contents f' ≡ contents f ++ got)

-- The call kept the buffer valid, and removed what it sent from the front.
abbrev pub Flushed : Fifo → Step → Type 0
Flushed f (f', sent, ret) = IsValid f' × (f'.bsize ≡ f.bsize) × (contents f ≡ sent ++ contents f')

module _ (f : Fifo) (wpos : ℕ) (xs : List ℕ) (v : IsValid f) (at : wpos ≡ wrap f (f.dpos + f.dlen))
    (one_block : wpos + length xs ≤ f.bsize) (room : f.dlen + length xs ≤ f.bsize) where
  store-IsValid : IsValid (store f wpos xs)
  unfolding store
  store-IsValid = ground (arith, length-splice f.b wpos xs)

  old_bytes :
      (i : ℕ)
      → i < f.dlen
      → get_or (splice f.b wpos xs) (wrap f (f.dpos + i)) 0 ≡ get_or f.b (wrap f (f.dpos + i)) 0
  old_bytes i h = get_or-splice_out f.b wpos xs (wrap f (f.dpos + i)) (omega arith) (ground arith)

  new_bytes :
      (i : ℕ)
      → i < length xs
      → get_or (splice f.b wpos xs) (wrap f (f.dpos + (f.dlen + i))) 0 ≡ get_or xs i 0
  new_bytes i h =
      get_or-splice_in f.b wpos xs i (wrap f (f.dpos + (f.dlen + i))) (omega arith) h (ground arith)

  contents-store : contents (store f wpos xs) ≡ contents f ++ xs
  unfolding store
  contents-store =
      let byte = λ (i : ℕ). get_or (splice f.b wpos xs) (wrap f (f.dpos + i)) 0 in
      let old : tabulate f.dlen byte ≡ contents f =
        tabulate_congr f.dlen byte (λ i. get_or f.b (wrap f (f.dpos + i)) 0) old_bytes in
      let new : tabulate (length xs) (λ i. byte (f.dlen + i)) ≡ xs =
        tabulate_congr (length xs) (λ i. byte (f.dlen + i)) (λ i. get_or xs i 0) new_bytes
        ∙ tabulate-get_or xs in
      tabulate-add f.dlen (length xs) byte ∙ (λ i. old i ++ new i)

nothing_read : (f : Fifo) (ret : ℤ) → IsValid f → Filled f (f, [], ret)
nothing_read f ret v = (v, refl, sym (append-nil (contents f)))

-- The read into the only free region, or the second one, on a buffer that had `before` appended.
after_read_last-Filled :
    (g f : Fifo) (before : List ℕ) (wpos : ℕ) (r : ReadReply)
    → IsValid f
    → f.bsize ≡ g.bsize
    → contents f ≡ contents g ++ before
    → wpos ≡ wrap f (f.dpos + f.dlen)
    → wpos + (f.bsize - f.dlen) ≤ f.bsize
    → ((xs : List ℕ) → r ≡ bytes xs → length xs ≤ f.bsize - f.dlen)
    → Filled g (after_read_last f before wpos r)
unfolding after_read_last
after_read_last-Filled g f before wpos no_data v s e at h w = (v, s, e)
after_read_last-Filled g f before wpos read_error v s e at h w = (v, s, e)
after_read_last-Filled g f before wpos (bytes []) v s e at h w = (v, s, e)
after_read_last-Filled g f before wpos (bytes (x ∷ xs)) v s e at h w =
    let n : length (x ∷ xs) ≤ f.bsize - f.dlen = w (x ∷ xs) refl in
    (
      store-IsValid f wpos (x ∷ xs) v at (omega arith) (omega arith),
      unfold store in s,
      contents-store f wpos (x ∷ xs) v at (omega arith) (omega arith)
          ∙ ap (λ l. l ++ (x ∷ xs)) e
          ∙ append_assoc (contents g) before (x ∷ xs),
    )

read_last-Filled :
    (g f : Fifo) (before : List ℕ) (rd : ℕ → ReadReply)
    → IsValid f
    → f.bsize ≡ g.bsize
    → contents f ≡ contents g ++ before
    → (f.dpos ≡ 0) ⊎ (f.bsize ≤ f.dpos + f.dlen)
    → f.dlen < f.bsize
    → IsRead rd
    → Filled g (read_last f before rd)
unfolding read_last
read_last-Filled g f before rd v s e c l w =
    let f_len = sub_size f.bsize f.dlen in
    after_read_last-Filled g f before (if f.dpos == 0 then f.dlen else sub_size f.dpos f_len)
      (rd f_len) v s e (ground arith) (ground arith) (λ xs q. ground (arith, w f_len xs q))

after_read_first-Filled :
    (f : Fifo) (f_len : ℕ) (rd' : ℕ → ReadReply) (r : ReadReply)
    → IsValid f
    → 0 < f.dpos
    → f.dpos + f.dlen + f_len ≡ f.bsize
    → 0 < f_len
    → IsRead rd'
    → ((xs : List ℕ) → r ≡ bytes xs → length xs ≤ f_len)
    → Filled f (after_read_first f f_len rd' r)
unfolding after_read_first
after_read_first-Filled f f_len rd' no_data v p s q w' w = nothing_read f (minus 1) v
after_read_first-Filled f f_len rd' read_error v p s q w' w = nothing_read f (minus 1301) v
after_read_first-Filled f f_len rd' (bytes []) v p s q w' w = nothing_read f (pos 0) v
after_read_first-Filled f f_len rd' (bytes (x ∷ xs)) v p s q w' w =
    let at = f.dpos + f.dlen in
    let n : length (x ∷ xs) ≤ f_len = w (x ∷ xs) refl in
    let here : at ≡ wrap f at = ground arith in
    let valid = store-IsValid f at (x ∷ xs) v here (omega arith) (omega arith) in
    let appended = contents-store f at (x ∷ xs) v here (omega arith) (omega arith) in
    elim (Bool-cases (length (x ∷ xs) == f_len)) [
      | inl all ↦ rw all (
          read_last-Filled f (store f at (x ∷ xs)) (x ∷ xs) rd' valid (unfold store in refl)
            appended (inr (unfold store in ground arith)) (unfold store in ground arith) w')
      | inr part ↦ rw part (valid, unfold store in refl, appended)
    ]

read_first-Filled :
    (f : Fifo) (rd rd' : ℕ → ReadReply)
    → IsValid f
    → 0 < f.dpos
    → f.dpos + f.dlen < f.bsize
    → IsRead rd
    → IsRead rd'
    → Filled f (read_first f rd rd')
unfolding read_first
read_first-Filled f rd rd' v p h w w' =
    let f_len = sub_size f.bsize (f.dpos + f.dlen) in
    after_read_first-Filled f f_len rd' (rd f_len) v p (omega arith) (omega arith) w' (w f_len)

pub fill-Filled :
    (f : Fifo) (rd rd' : ℕ → ReadReply)
    → IsValid f
    → IsRead rd
    → IsRead rd'
    → Filled f (fill f rd rd')
unfolding fill
fill-Filled f rd rd' v w w' = elim (dec_lt f.dlen f.bsize) [
  | no full ↦
      rw (let e : (sub_size f.bsize f.dlen == 0) ≡ true = ground arith in e)
        (nothing_read f (minus 2) v)
  | yes room ↦
      rw (let e : (sub_size f.bsize f.dlen == 0) ≡ false = ground arith in e)
        (elim (Bool-cases (not (f.dpos == 0) && ltb (f.dpos + f.dlen) f.bsize)) [
          | inl two ↦ rw two (read_first-Filled f rd rd' v (ground arith) (ground arith) w w')
          | inr one ↦ rw one (
              read_last-Filled f f [] rd v refl (sym (append-nil (contents f)))
                (elim (dec_lt 0 f.dpos) [
                  | yes later ↦ inr (ground arith)
                  | no start ↦ inl (omega arith)
                ])
                room w)
        ])
]

polled-Filled :
    (f : Fifo) (sure : Bool) (poll : PollReply) (collapsed : ℤ) (rest : Step)
    → IsValid f
    → Filled f rest
    → Filled f (polled f sure poll collapsed rest)
unfolding polled
polled-Filled f true poll collapsed rest v h = h
polled-Filled f false poll_error collapsed rest v h = nothing_read f (minus 103) v
polled-Filled f false hung_up collapsed rest v h = nothing_read f collapsed v
polled-Filled f false ready collapsed rest v h = h

-- On a valid buffer and for any answers of poll and read that give at most what was asked,
-- btfifo_fd_to_fifo keeps the buffer valid and appends exactly the bytes it read, in order, behind
-- those that were there.
pub fd_to_fifo-Filled :
    (f : Fifo) (poll : PollReply) (rd rd' : ℕ → ReadReply)
    → IsValid f
    → IsRead rd
    → IsRead rd'
    → Filled f (fd_to_fifo f poll rd rd')
unfolding fd_to_fifo
fd_to_fifo-Filled f poll rd rd' v w w' =
    polled-Filled f f.assume_fd_ready poll (minus 1201) (fill f rd rd') v
      (fill-Filled f rd rd' v w w')

-- ===== src/Protocol/Replies.antt =====
-- Waiting for a reply: the loop ends, and finds the first message with the command.
use tani_dvr.Link.{
  Conn, LlHeader, llp_header_size, llp_hd_cmd, llp_get_header, llp_get_discard_extdata,
}
use tani_dvr.Link.Messages.{
  llp_send_header-sent, wire, sent, Message, IsMessage, encode, cmd, header_of, then_comes,
  llp_get_header-Message, discard_lem, discard-Message,
}
use tani_dvr.Protocol.{get_header_loop, hlp_get_header, request, request_and_discard}
use mathlib.Core.Path.{subst}
use tani_dvr.Prelude.{
  All, Bool-cases, List, [], ap, append_assoc, arith, drop, false, if◌then◌else◌, inl, inr, length,
  length-drop, length-take, not, refl, suc, sym, take, true, zero, ℕ, ◌++◌, ◌<◌, ◌==◌, ◌∙◌, ◌∷◌,
  ◌≡◌, ◌≤◌,
}

left_after_header :
    (c : Conn) → (llp_get_header c).0 ≡ then_comes c (drop llp_header_size c.incoming)
unfolding llp_get_header
left_after_header c =
    elim (Bool-cases (length (take llp_header_size c.incoming) == llp_header_size)) [
      | inl all ↦ rw all refl
      | inr short ↦ rw short refl
    ]

no_header : (c : Conn) → length c.incoming < llp_header_size → (llp_get_header c).2 ≡ 1
unfolding llp_get_header
no_header c h = ground (arith, length-take llp_header_size c.incoming)

-- What is left for the next round.
abbrev pub next_round : Conn → Conn
next_round c = let (c', h, retcode) = llp_get_header c in (llp_get_discard_extdata c' h).0

next_round_shorter :
    (c : Conn) (k : ℕ) → length c.incoming ≤ suc k → length (next_round c).incoming ≤ k
unfolding llp_get_discard_extdata
next_round_shorter c k h =
    let (c', header, retcode) = llp_get_header c in
    let left : c'.incoming ≡ drop llp_header_size c.incoming =
      ap (λ d. d.incoming) (left_after_header c) in
    let left' : (next_round c).incoming ≡ drop header.extlen c'.incoming =
      ap (λ d. d.0.incoming) (discard_lem header.extlen c' header.extlen (omega arith)) in
    omega (
      arith,
      ap length left,
      ap length left',
      length-drop llp_header_size c.incoming,
      length-drop header.extlen c'.incoming,
    )

loop_end :
    (k : ℕ) (c : Conn) (e : ℕ) → length c.incoming ≤ 0 → get_header_loop k c e ≡ llp_get_header c
unfolding get_header_loop
loop_end zero c e h = refl
loop_end (suc k) c e h = rw (no_header c (omega arith)) refl

-- One round, around what comes after it.
abbrev around : Conn → ℕ → Conn × LlHeader × ℕ → Conn × LlHeader × ℕ
around c e again =
    let (c', h, retcode) = llp_get_header c in
    if not (retcode == 0)
    then (c', h, retcode)
    else if not (llp_hd_cmd h == e)
    then again
    else (c', h, 0)

-- Any number of rounds that is not below the number of bytes gives the same.
loop_same :
    (k j : ℕ) (c : Conn) (e : ℕ)
    → length c.incoming ≤ k
    → length c.incoming ≤ j
    → get_header_loop k c e ≡ get_header_loop j c e
unfolding get_header_loop
loop_same zero j c e h h' = sym (loop_end j c e h)
loop_same (suc k) zero c e h h' = loop_end (suc k) c e h'
loop_same (suc k) (suc j) c e h h' =
    ap (around c e)
      (loop_same k j (next_round c) e (next_round_shorter c k h) (next_round_shorter c j h'))

-- hlp_get_header satisfies the equation of the source's unbounded loop: the rounds that the model
-- allows are always enough.
hlp_get_header_loop :
    (c : Conn) (e : ℕ)
    → hlp_get_header c e ≡ (
        let (c', h, retcode) = llp_get_header c in
        if not (retcode == 0)
        then (c', h, retcode)
        else if not (llp_hd_cmd h == e)
        then hlp_get_header (llp_get_discard_extdata c' h).0 e
        else (c', h, 0))
unfolding hlp_get_header get_header_loop
hlp_get_header_loop c e =
    let n = length c.incoming in
    loop_same n (suc n) c e (omega arith) (omega arith)
    ∙ ap (around c e) (
        loop_same n (length (next_round c).incoming) (next_round c) e
          (next_round_shorter c n (omega arith)) (omega arith))

-- A message that was not waited for.
abbrev pub Other : ℕ → Message → Type 0
Other e m = IsMessage m × ((cmd m == e) ≡ false)

-- What the DVR sends before the reply, the reply, and what comes behind it.
abbrev pub stream : List Message → Message → List ℕ → List ℕ
stream [] m rest = encode m ++ rest
stream (o ∷ os) m rest = encode o ++ stream os m rest

-- On a stream of whole messages hlp_get_header skips those with other commands, however many, and
-- returns the header of the first with the command, with its extended data next in the stream.
pub hlp_get_header-stream :
    (os : List Message) (c : Conn) (m : Message) (rest : List ℕ)
    → All (Other (cmd m)) os
    → IsMessage m
    → c.incoming ≡ stream os m rest
    → hlp_get_header c (cmd m) ≡ (then_comes c (m.ext ++ rest), header_of m, 0)
hlp_get_header-stream [] c m rest a v e =
    let got = llp_get_header-Message c m (m.ext ++ rest) v (e ∙ append_assoc m.head m.ext rest) in
    let same : (cmd m == cmd m) ≡ true = ground arith in
    hlp_get_header_loop c (cmd m) ∙ rw got (rw same refl)
hlp_get_header-stream (o ∷ os) c m rest a v e =
    let later = stream os m rest in
    let got =
      llp_get_header-Message c o (o.ext ++ later) a.0.0 (e ∙ append_assoc o.head o.ext later) in
    hlp_get_header_loop c (cmd m)
    ∙ rw got (
        rw (a.0.1, discard-Message c o later)
          (hlp_get_header-stream os (then_comes c later) m rest a.1 v refl))

-- The same, with the command named.
pub hlp_get_header-expected :
    (os : List Message) (c : Conn) (m : Message) (rest : List ℕ) (expected : ℕ)
    → All (Other expected) os
    → IsMessage m
    → cmd m ≡ expected
    → c.incoming ≡ stream os m rest
    → hlp_get_header c expected ≡ (then_comes c (m.ext ++ rest), header_of m, 0)
hlp_get_header-expected os c m rest expected a v e i =
    ap (hlp_get_header c) (sym e)
    ∙ hlp_get_header-stream os c m rest (subst (λ k. All (Other k) os) (sym e) a) v i

-- A request with a discarded reply, given room to send and a stream with that reply behind any
-- messages of other kinds: the header goes out, the stream is consumed exactly up to the end of the
-- reply, and the result is 0.
pub request_and_discard-stream :
    (os : List Message) (c : Conn) (h : LlHeader) (m : Message) (rest : List ℕ)
    → All (Other (cmd m)) os
    → IsMessage m
    → c.incoming ≡ stream os m rest
    → length h.raw ≤ c.room
    → request_and_discard c h (cmd m) ≡ (then_comes (sent c (wire h)) rest, 0)
unfolding request_and_discard request
request_and_discard-stream os c h m rest a v e room =
    let out = llp_send_header-sent c h room in
    let got = hlp_get_header-stream os (sent c (wire h)) m rest a v e in
    rw out (rw got (rw (discard-Message (sent c (wire h)) m rest) refl))

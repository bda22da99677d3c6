-- ===== src/Session/Prefix.antt =====
-- Whatever the system answers, what goes into the pipe is the media of whole messages, in order.
use mathlib.Core.Bool.{true≢false}
use tani_dvr.Protocol.Media.{get_frame}
use tani_dvr.Link.{llp_get_header}
use tani_dvr.Protocol.{get_header_loop}
use mathlib.Core.Path.{subst}
use tani_dvr.Link.{Conn}
use tani_dvr.Link.Messages.{Message, IsMessage, cmd, then_comes}
use tani_dvr.Protocol.{hlp_get_header}
use tani_dvr.Protocol.Replies.{Other, stream}
use tani_dvr.Protocol.Media.{hlp_collect_media_data, receive_frame}
use tani_dvr.Protocol.Media.Frame.{status, hlp_collect_media_data-stream}
use tani_dvr.Session.{Streaming, Seen, write_pipe, is_none, pass_frame, stream_buffer_len}
use tani_dvr.Prelude.{
  All, All-split, Bool, List, Option, [], ap, append-nil, append_assoc, arith, false, if_cases,
  if_false, if_true, length, ltb, none, not, refl, some, suc, sym, take-past, ℕ, ◌&&◌, ◌++◌, ◌==◌,
  ◌∙◌, ◌∷◌, ◌≡◌, ◌≤◌,
}

-- A media message, and the messages of other kinds before it.
pub record Piece : Type 0 where
  pub others : List Message
  pub media : Message

pub record IsPiece (p : Piece) : Type 0 where
  pub skipped : All (Other 188) p.others
  pub whole : IsMessage p.media
  pub kind : cmd p.media ≡ 188
  pub good : status p.media ≡ 0
  pub small : length p.media.ext ≤ stream_buffer_len

unfoldable pub data_stream : List Piece → List ℕ
data_stream [] = []
data_stream (p ∷ ps) = stream p.others p.media (data_stream ps)

unfoldable pub media_of : List Piece → List ℕ
media_of [] = []
media_of (p ∷ ps) = p.media.ext ++ media_of ps

-- A blocking write takes all or fails.
unfoldable pub WritesAll : Option ℕ → Type 0
WritesAll none = Unit
WritesAll (some n) = stream_buffer_len ≤ n

media_of-append :
    (ps : List Piece) (p : Piece) → media_of (ps ++ p ∷ []) ≡ media_of ps ++ p.media.ext
unfolding media_of
media_of-append [] p = append-nil p.media.ext
media_of-append (q ∷ ps) p =
    ap (◌++◌ q.media.ext) (media_of-append ps p)
    ∙ sym (append_assoc q.media.ext (media_of ps) p.media.ext)

-- Some messages have been passed on, the others are still to come.
pub record Passed (start : List ℕ) (all : List Piece) (s : Streaming) : Type 0 where
  pub before : List Piece
  pub after : List Piece
  pub splits : all ≡ before ++ after
  pub to_come : s.conn_stream.incoming ≡ data_stream after
  pub passed_on : s.piped ≡ start ++ media_of before

-- What is in the pipe is whole messages from the start on.
pub record Piped (start : List ℕ) (all : List Piece) (s : Streaming) : Type 0 where
  pub before : List Piece
  pub after : List Piece
  pub splits : all ≡ before ++ after
  pub passed_on : s.piped ≡ start ++ media_of before

pub Passed-Piped :
    (start : List ℕ) (all : List Piece) (s : Streaming) → Passed start all s → Piped start all s
Passed-Piped start all s p = record {
  before = p.before;
  after = p.after;
  splits = p.splits;
  passed_on = p.passed_on;
}

-- At the end of the stream a read fails and leaves nothing.
pub receive_frame-end :
    (c : Conn) (x y z : ℕ)
    → c.incoming ≡ []
    → ((receive_frame c (some stream_buffer_len) x y z).0.incoming ≡ [])
      × ((receive_frame c (some stream_buffer_len) x y z).2 ≡ 2)
unfolding receive_frame hlp_get_header get_header_loop llp_get_header get_frame
receive_frame-end c x y z e =
    let same : then_comes c [] ≡ c = λ i. record c { incoming = sym e i } in
    subst
      (λ d.
        ((receive_frame d (some stream_buffer_len) x y z).0.incoming ≡ [])
        × ((receive_frame d (some stream_buffer_len) x y z).2 ≡ 2))
      same (refl, refl)

-- A write that does not fail.
pub write_pipe-all :
    (s : Streaming) (xs : List ℕ) (w : Option ℕ)
    → WritesAll w
    → length xs ≤ stream_buffer_len
    → is_none w ≡ false
    → (write_pipe s xs w).piped ≡ s.piped ++ xs
unfolding write_pipe WritesAll is_none
write_pipe-all s xs none h k e = absurd (true≢false e)
write_pipe-all s xs (some n) h k e = ap (◌++◌ s.piped) (take-past n xs (omega arith))

pub write_pipe-keeps :
    (s : Streaming) (xs : List ℕ) (w : Option ℕ) → (write_pipe s xs w).conn_stream ≡ s.conn_stream
unfolding write_pipe
write_pipe-keeps s xs none = refl
write_pipe-keeps s xs (some n) = refl

module _ (start : List ℕ) (all : List Piece) (good : All IsPiece all) where
  -- One message more.
  pub advanced :
      (s s' : Streaming) (before ps : List Piece) (p : Piece)
      → all ≡ before ++ p ∷ ps
      → s.piped ≡ start ++ media_of before
      → s'.piped ≡ s.piped ++ p.media.ext
      → s'.conn_stream.incoming ≡ data_stream ps
      → Passed start all s'
  advanced s s' before ps p split old new rest = record {
    before = before ++ p ∷ [];
    after = ps;
    splits = split ∙ sym (append_assoc before (p ∷ []) ps);
    to_come = rest;
    passed_on =
        new
        ∙ (ap (λ x. x ++ p.media.ext) old
            ∙ (append_assoc start (media_of before) p.media.ext
                ∙ ap (◌++◌ start) (sym (media_of-append before p))));
  }

  pub next_media :
      (c : Conn) (p : Piece) (ps : List Piece)
      → IsPiece p
      → c.incoming ≡ data_stream (p ∷ ps)
      → hlp_collect_media_data c (some stream_buffer_len)
        ≡ (then_comes c (data_stream ps), p.media.ext, 0)
  unfolding data_stream
  next_media c p ps g e =
      let fits : ltb stream_buffer_len (length p.media.ext) ≡ false = ground (arith, g.small) in
      hlp_collect_media_data-stream c stream_buffer_len p.others p.media (data_stream ps) g.skipped
        g.whole g.kind e
      ∙ (if_false _ _ _ fits ∙ (λ i. (then_comes c (data_stream ps), p.media.ext, g.good i)))

  pub piece_of : (before ps : List Piece) (p : Piece) → all ≡ before ++ p ∷ ps → IsPiece p
  piece_of before ps p e = (All-split IsPiece before (p ∷ ps) (subst (All IsPiece) e good)).1.0

  -- What a step leaves with its code: on 0 all read has been passed on, and in any case whole
  -- messages.
  abbrev pub Kept : Streaming × ℕ → Type 0
  Kept r = (r.1 ≡ 0 → Passed start all r.0) × Piped start all r.0

  pub fine : (s : Streaming) → Passed start all s → Kept (s, 0)
  fine s p = ((λ e. p), Passed-Piped start all s p)

  pub broken : (s : Streaming) (n : ℕ) → Piped start all s → Kept (s, suc n)
  broken s n p = ((λ e. absurd (omega arith)), p)

  pub pass_frame-Kept :
      (keeps_alive : Bool) (s : Streaming) (e : Seen) (again : Streaming → Streaming × ℕ)
      → WritesAll e.wrote
      → (before after : List Piece) → all ≡ before ++ after
      → s.conn_stream.incoming ≡ data_stream after
      → s.piped ≡ start ++ media_of before
      → ((s' : Streaming) → Passed start all s' → Kept (again s'))
      → Kept (
          pass_frame keeps_alive s e
            (hlp_collect_media_data s.conn_stream (some stream_buffer_len))
            again)
  unfolding pass_frame data_stream hlp_collect_media_data
  pass_frame-Kept keeps_alive s e again h before [] split rest old k =
      let stop = receive_frame-end s.conn_stream 12 13 11 rest in
      subst Kept (sym (if_true _ _ _ (ap (λ n. not (n == 0)) stop.1)))
        (broken _ 5 (record { before = before; after = []; splits = split; passed_on = old }))
  pass_frame-Kept keeps_alive s e again h before (p ∷ ps) split rest old k =
      let g = piece_of before ps p split in
      let s' : Streaming = record s { conn_stream = then_comes s.conn_stream (data_stream ps) } in
      let s'' = write_pipe s' p.media.ext e.wrote in
      let kept = ap (λ c. c.incoming) (write_pipe-keeps s' p.media.ext e.wrote) in
      subst (λ u. Kept (pass_frame keeps_alive s e u again))
        (sym (next_media s.conn_stream p ps g rest))
        (if_cases Kept (is_none e.wrote)
          (λ x.
            broken s' 104
              (record { before = before; after = p ∷ ps; splits = split; passed_on = old }))
          (λ x.
            let next =
              advanced s s'' before ps p split old
                (write_pipe-all s' p.media.ext e.wrote h g.small x) kept in
            if_cases Kept (keeps_alive && e.ka_over) (λ y. fine s'' next) (λ y. k s'' next)))

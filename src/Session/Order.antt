-- ===== src/Session/Order.antt =====
-- The loops of stream_media_dvr_to_pipe keep the order of the DVR's messages.
use tani_dvr.Link.{LlHeader}
use tani_dvr.Link.{llp_send_extdata}
use tani_dvr.Session.Prefix.{
  write_pipe-keeps, write_pipe-all, advanced, piece_of, media_of, Piped, data_stream,
  receive_frame-end,
}
use tani_dvr.Session.{
  di_init, open_session, Devinfo, write_pipe, stream_media_dvr_to_pipe, is_none, stream_frames,
  stream_buffer_len,
}
use tani_dvr.Protocol.Media.Frame.{receive_frame-stream}
use tani_dvr.Protocol.Media.{hlp_media_data_request, receive_frame, media_request}
use tani_dvr.Link.{llp_send_header}
use tani_dvr.Prelude.Int.{ℤ, pos, negsuc}
use tani_dvr.Link.{Conn}
use tani_dvr.Protocol.{HlpConnection, hlp_connection_relationship, hlp_keep_alive}
use tani_dvr.Protocol.Media.{hlp_discard_incoming_data}
use tani_dvr.Session.{
  Streaming, Seen, Round, DvrControl, collect_media, media_round, timers, stream_loop,
}
use tani_dvr.Session.Prefix.{
  Piece, IsPiece, WritesAll, Passed, Passed-Piped, Kept, fine, broken, pass_frame-Kept,
}
use tani_dvr.Prelude.{
  All, Bool, List, Option, [], ap, arith, false, if_cases, if_false, length, ltb, none, not, refl,
  some, ℕ, ◌&&◌, ◌++◌, ◌<◌, ◌==◌, ◌∙◌, ◌∷◌, ◌≡◌, ◌≤◌,
}

abbrev pub RoundWritesAll : Round → Type 0
RoundWritesAll w = All (λ e. WritesAll e.wrote) w.seen

zero_code : (n : ℕ) → not (n == 0) ≡ false → n ≡ 0
zero_code n f = ground arith

-- Only the control connection has changed.
same_stream :
    (start : List ℕ) (all : List Piece) (s : Streaming) (c : Conn)
    → Passed start all s
    → Passed start all (record s { conn_control = c })
same_stream start all s c p = record {
  before = p.before;
  after = p.after;
  splits = p.splits;
  to_come = p.to_come;
  passed_on = p.passed_on;
}

module _ (start : List ℕ) (all : List Piece) (good : All IsPiece all) where
  abbrev Good : Streaming × ℕ → Type 0
  Good = Kept start all good

  collect_media-Kept :
      (keeps_alive : Bool) (es : List Seen) (s : Streaming)
      → All (λ e. WritesAll e.wrote) es
      → Passed start all s
      → Good (collect_media keeps_alive s es)
  unfolding collect_media
  collect_media-Kept keeps_alive [] s a p = fine start all good s p
  collect_media-Kept keeps_alive (e ∷ es) s a p =
      pass_frame-Kept start all good keeps_alive s e (λ s'. collect_media keeps_alive s' es) a.0
        p.before p.after p.splits p.to_come p.passed_on
        (λ s' q. collect_media-Kept keeps_alive es s' a.1 q)

  media_round-Kept :
      (keeps_alive : Bool) (s : Streaming) (w : Round)
      → RoundWritesAll w
      → Passed start all s
      → Good (media_round keeps_alive s w)
  unfolding media_round
  media_round-Kept keeps_alive s w a p =
      let r = collect_media keeps_alive s w.seen in
      let q = collect_media-Kept keeps_alive w.seen s a p in
      if_cases Good (not w.waited) (λ e. fine start all good s p)
        (λ e.
          if_cases Good (not (r.1 == 0)) (λ f. q)
            (λ f.
              let passed = q.0 (zero_code r.1 f) in
              discarded r.0 (hlp_discard_incoming_data w.control_checks r.0.conn_control (pos 0))
                passed))
    where
      discarded :
          (s' : Streaming) (d : Conn × ℤ)
          → Passed start all s'
          → Good (elim d.1 [
            | pos n ↦ (record s' { conn_control = d.0 }, 0)
            | negsuc n ↦ (record s' { conn_control = d.0 }, 7)
          ])
      discarded s' (c, pos n) h = fine start all good _ (same_stream start all s' c h)
      discarded s' (c, negsuc n) h =
          broken start all good _ 6 (Passed-Piped start all _ (same_stream start all s' c h))

  timers-Kept :
      (dvrctl : DvrControl) (s : Streaming) (w : Round)
      → Passed start all s
      → Good (timers dvrctl s w)
  unfolding timers
  timers-Kept dvrctl s w p =
      let c = (hlp_keep_alive s.conn_control).0 in
      let s' : Streaming = record s { conn_control = c } in
      let p' = same_stream start all s c p in
      let timeout = not (dvrctl.timeout_us == 0) && w.to_over in
      if_cases Good (not (dvrctl.keep_alive_us == 0) && w.ka_over)
        (λ e.
          if_cases Good (not ((hlp_keep_alive s.conn_control).1 == 0))
            (λ f. broken start all good s' 7 (Passed-Piped start all s' p'))
            (λ f.
              if_cases Good timeout (λ g. broken start all good s' 8 (Passed-Piped start all s' p'))
                (λ g. fine start all good s' p')))
        (λ e.
          if_cases Good timeout (λ g. broken start all good s 8 (Passed-Piped start all s p))
            (λ g. fine start all good s p))

  stream_loop-Kept :
      (dvrctl : DvrControl) (ws : List Round) (s : Streaming)
      → All RoundWritesAll ws
      → Passed start all s
      → Good (stream_loop dvrctl s ws)
  unfolding stream_loop
  stream_loop-Kept dvrctl [] s a p = fine start all good s p
  stream_loop-Kept dvrctl (w ∷ ws) s a p =
      let r = media_round (not (dvrctl.keep_alive_us == 0)) s w in
      let q = media_round-Kept (not (dvrctl.keep_alive_us == 0)) s w a.0 p in
      let r' = timers dvrctl r.0 w in
      if_cases Good (not (r.1 == 0)) (λ e. q)
        (λ e.
          let q' = timers-Kept dvrctl r.0 w (q.0 (zero_code r.1 e)) in
          if_cases Good (not (r'.1 == 0)) (λ f. q')
            (λ f. stream_loop-Kept dvrctl ws r'.0 a.1 (q'.0 (zero_code r'.1 f))))

-- A first frame that was received.
FirstOf : List Piece → Conn × Conn × List ℕ × ℕ → Type 0
FirstOf all u =
    u.3 ≡ 0
    → (p : Piece) × (ps : List Piece) × (all ≡ p ∷ ps)
      × (u.1.incoming ≡ data_stream ps)
      × (u.2 ≡ p.media.ext)

receive_frame-FirstOf :
    (all : List Piece)
    → All IsPiece all
    → (ctrl c : Conn) → c.incoming ≡ data_stream all
    → let r = receive_frame c (some stream_buffer_len) 3 5 4 in FirstOf all (ctrl, r.0, r.1, r.2)
unfolding data_stream FirstOf
receive_frame-FirstOf [] good ctrl c e =
    λ z. absurd (omega (arith, (receive_frame-end c 3 5 4 e).1))
receive_frame-FirstOf (p ∷ ps) (g, good) ctrl c e =
    let fits : ltb stream_buffer_len (length p.media.ext) ≡ false = ground (arith, g.small) in
    let got =
      receive_frame-stream c stream_buffer_len p.others p.media (data_stream ps) 3 5 4 g.skipped
        g.whole g.kind e
      ∙ if_false _ _ _ fits in
    λ z. (p, ps, refl, ap (λ u. u.0.incoming) got, ap (λ u. u.1) got)

hlp_media_data_request-FirstOf :
    (all : List Piece)
    → All IsPiece all
    → (ctrl c : Conn) (channel sub_channel : ℕ) → c.incoming ≡ data_stream all
    → FirstOf all (hlp_media_data_request ctrl c channel sub_channel (some stream_buffer_len))
unfolding hlp_media_data_request FirstOf
hlp_media_data_request-FirstOf all good ctrl c channel sub_channel e =
    let (h, extdata_out) = media_request channel sub_channel in
    let (c1, failed) = llp_send_header ctrl h in
    let (c2, failed') = llp_send_extdata c1 extdata_out in
    if_cases (FirstOf all) (not (failed == 0)) (λ f z. absurd (omega arith))
      (λ f.
        if_cases (FirstOf all) (not (failed' == 0)) (λ g z. absurd (omega arith))
          (λ g. receive_frame-FirstOf all good c2 c e))

sent_incoming : (c : Conn) (h : LlHeader) → (llp_send_header c h).0.incoming ≡ c.incoming
unfolding llp_send_header
sent_incoming c h = if_cases (λ (r : Conn × ℕ). r.0.incoming ≡ c.incoming) _ (λ e. refl) (λ e. refl)

first_of :
    {all : List Piece} (u : Conn × Conn × List ℕ × ℕ)
    → FirstOf all u
    → u.3 ≡ 0
    → (p : Piece) × (ps : List Piece) × (all ≡ p ∷ ps)
      × (u.1.incoming ≡ data_stream ps)
      × (u.2 ≡ p.media.ext)
unfolding FirstOf
first_of u f z = f z

tied_incoming :
    (orig new : HlpConnection) (reqtype reqchnumber : ℕ)
    → (hlp_connection_relationship orig new reqtype reqchnumber).0.conn.incoming ≡ new.conn.incoming
unfolding hlp_connection_relationship
tied_incoming orig new reqtype reqchnumber = sent_incoming new.conn _

-- What is known of a result: no connection, or the pipe's bytes.
unfoldable pub Delivered : List Piece → Option Streaming × ℕ → Type 0
Delivered all (none, ret) = 0 < ret
Delivered all (some s, ret) = (ret ≡ 0 → Passed [] all s) × Piped [] all s

module _ (all : List Piece) (good : All IsPiece all) where
  nothing : (s : Streaming) → s.piped ≡ [] → Piped [] all s
  nothing s e = record {
    before = [];
    after = all;
    splits = refl;
    passed_on = e ∙ unfold media_of in refl;
  }

  begun :
      (dvrctl : DvrControl) (s : Streaming) (sbuf : List ℕ) (wrote : Option ℕ) (rounds : List Round)
      → s.piped ≡ []
      → WritesAll wrote
      → All RoundWritesAll rounds
      → is_none wrote ≡ false
      → (p : Piece) (ps : List Piece) → all ≡ p ∷ ps
      → s.conn_stream.incoming ≡ data_stream ps
      → sbuf ≡ p.media.ext
      → Kept [] all good (stream_loop dvrctl (write_pipe s sbuf wrote) rounds)
  begun dvrctl s sbuf wrote rounds start h a x p ps split rest same =
      let g = piece_of [] all good [] ps p split in
      let small : length sbuf ≤ stream_buffer_len = omega (arith, ap length same, g.small) in
      stream_loop-Kept [] all good dvrctl rounds (write_pipe s sbuf wrote) a (
        advanced [] all good s (write_pipe s sbuf wrote) [] ps p split
          (start ∙ unfold media_of in refl)
          (write_pipe-all s sbuf wrote h small x ∙ ap (◌++◌ s.piped) same)
          (ap (λ c. c.incoming) (write_pipe-keeps s sbuf wrote) ∙ rest))

  stream_frames-Kept :
      (dvrctl : DvrControl) (control conn_stream : HlpConnection) (wrote : Option ℕ)
      (rounds : List Round)
      → conn_stream.conn.incoming ≡ data_stream all
      → WritesAll wrote
      → All RoundWritesAll rounds
      → Kept [] all good (stream_frames dvrctl control conn_stream wrote rounds)
  unfolding stream_frames
  stream_frames-Kept dvrctl control conn_stream wrote rounds e h a =
      let tied = hlp_connection_relationship control conn_stream 1 dvrctl.channel in
      let u =
        hlp_media_data_request control.conn tied.0.conn dvrctl.channel dvrctl.sub_channel
          (some stream_buffer_len) in
      let first =
        hlp_media_data_request-FirstOf all good control.conn tied.0.conn dvrctl.channel
          dvrctl.sub_channel (tied_incoming control conn_stream 1 dvrctl.channel ∙ e) in
      let s : Streaming = record { conn_control = u.0; conn_stream = u.1; piped = [] } in
      let K = Kept [] all good in
      if_cases K (not (tied.1 == 0)) (λ f. broken [] all good _ 1 (nothing _ refl))
        (λ f.
          if_cases K (not (u.3 == 0)) (λ g. broken [] all good s 2 (nothing s refl))
            (λ g.
              if_cases K (is_none wrote) (λ x. broken [] all good s 104 (nothing s refl))
                (λ x.
                  let (p, ps, split, rest, same) = first_of u first (zero_code u.3 g) in
                  begun dvrctl s u.2 wrote rounds refl h a x p ps split rest same)))

-- For a stream connection, where there is one, on which the DVR sends whole media messages of up to
-- 1,000,000 bytes with status 0, with messages of other kinds between them, and for any answers of
-- poll, the timers and the control connection, with writes to the pipe that take all or fail: what
-- stream_media_dvr_to_pipe has written to the pipe, when it ends and while its loop still runs, is
-- the media of a front of these messages, whole and in order; while it runs, which the model marks
-- with 0, these are just the messages read. Where the control connection or the stream connection is
-- missing it returns a code that is not 0.
pub stream_media_dvr_to_pipe-Delivered :
    (all : List Piece) (dvrctl : DvrControl) (opened opened' : Option HlpConnection)
    (block : Devinfo) (wrote : Option ℕ) (rounds : List Round)
    → All IsPiece all
    → ((conn_stream : HlpConnection)
        → opened' ≡ some conn_stream
        → conn_stream.conn.incoming ≡ data_stream all)
    → WritesAll wrote
    → All RoundWritesAll rounds
    → Delivered all (stream_media_dvr_to_pipe dvrctl opened opened' block wrote rounds)
unfolding stream_media_dvr_to_pipe Delivered
stream_media_dvr_to_pipe-Delivered all dvrctl opened none block wrote rounds good e h a =
    let r = open_session dvrctl opened (di_init block) in
    if_cases (Delivered all) (not (r.1 == 0)) (λ f. omega arith) (λ f. no_stream r.0)
  where
    no_stream :
        (session : Option (HlpConnection × Devinfo))
        → Delivered all (elim session [ none ↦ (none, 4) | some (control, devinfo) ↦ (none, 1) ])
    no_stream none = omega arith
    no_stream (some (control, devinfo)) = omega arith
stream_media_dvr_to_pipe-Delivered all dvrctl opened (some conn_stream) block wrote rounds good e h
      a =
    let r = open_session dvrctl opened (di_init block) in
    if_cases (Delivered all) (not (r.1 == 0)) (λ f. omega arith) (λ f. opened_with r.0)
  where
    opened_with :
        (session : Option (HlpConnection × Devinfo))
        → Delivered all (elim session [
          | none ↦ (none, 4)
          | some (control, devinfo) ↦
              let (s, ret) = stream_frames dvrctl control conn_stream wrote rounds in (some s, ret)
        ])
    opened_with none = omega arith
    opened_with (some (control, devinfo)) =
        stream_frames-Kept all good dvrctl control conn_stream wrote rounds (e conn_stream refl) h a

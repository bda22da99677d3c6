-- ===== src/Protocol/Media/Frame.antt =====
-- A frame that the DVR sends arrives whole.
use tani_dvr.Link.{Conn}
use tani_dvr.Link.Messages.{
  Message, IsMessage, cmd, then_comes, sent, wire, sent-append, llp_send_header-sent,
  llp_send_extdata-sent, discard-Message, llp_get_extdata_sbuff-Message,
}
use tani_dvr.Protocol.{remote_retcode_offset}
use tani_dvr.Protocol.Replies.{Other, stream, hlp_get_header-expected}
use tani_dvr.Protocol.Media.{
  get_frame, receive_frame, media_request, hlp_media_data_request, hlp_collect_media_data,
}
use tani_dvr.BinTools.{nv2lm_u32}
use tani_dvr.Prelude.{
  All, Bool-cases, List, [], arith, false, get_or, if◌then◌else◌, inl, inr, length, length-set,
  length-splice, length-take, ltb, not, refl, replicate, set, some, take, true, ℕ, ◌%◌, ◌++◌, ◌+◌,
  ◌<◌, ◌==◌, ◌∙◌, ◌≡◌, ◌≤◌,
}

-- The status that the DVR puts in byte 16.
abbrev pub status : Message → ℕ
status m = if not (get_or m.head 16 0 == 0) then get_or m.head 16 0 + remote_retcode_offset else 0

pub receive_frame-stream :
    (c : Conn) (max_len : ℕ) (os : List Message) (m : Message) (rest : List ℕ) (x y z : ℕ)
    → All (Other 188) os
    → IsMessage m
    → cmd m ≡ 188
    → c.incoming ≡ stream os m rest
    → receive_frame c (some max_len) x y z ≡ (
        if ltb max_len (length m.ext)
        then (then_comes c rest, [], 10)
        else (then_comes c rest, m.ext, status m))
unfolding receive_frame get_frame
receive_frame-stream c max_len os m rest x y z a v e i =
    let got = hlp_get_header-expected os c m rest 188 a v e i in
    let skipped = discard-Message c m rest in
    let read = llp_get_extdata_sbuff-Message c m rest (length m.ext) v (omega arith) in
    rw got (elim (Bool-cases (ltb max_len (length m.ext))) [
      | inl large ↦ rw (large, skipped) refl
      | inr fits ↦ rw (fits, read) (ground arith)
    ])

-- A request in the old protocol has 32 bytes and 16 bytes behind them.
length-media_request :
    (channel sub_channel : ℕ)
    → channel < 16
    → (length (media_request channel sub_channel).0.raw ≡ 32)
      × (length (media_request channel sub_channel).1 ≡ 16)
unfolding media_request
length-media_request channel sub_channel old =
    let is_old : ltb channel 16 ≡ true = ground arith in
    let block = set (replicate 64 0) channel (sub_channel % 256) in
    let raw : length (set (set (set (replicate 32 0) 0 17) (8 + channel) 1) 24 0) ≡ 32 =
      length-set (set (set (replicate 32 0) 0 17) (8 + channel) 1) 24 0
      ∙ length-set (set (replicate 32 0) 0 17) (8 + channel) 1 in
    let ext : length (take 16 block) ≡ 16 =
      omega
        (arith, length-take 16 block, length-set (replicate 64 0) channel (sub_channel % 256)) in
    rw is_old (raw, ext)

-- Behind any messages of other kinds hlp_collect_media_data reads the first media message: it is
-- handed over whole, with the DVR's status, if the destination can take it, and skipped whole with
-- code 10 if not; either way exactly the stream up to its end is consumed.
pub hlp_collect_media_data-stream :
    (c : Conn) (max_len : ℕ) (os : List Message) (m : Message) (rest : List ℕ)
    → All (Other 188) os
    → IsMessage m
    → cmd m ≡ 188
    → c.incoming ≡ stream os m rest
    → hlp_collect_media_data c (some max_len) ≡ (
        if ltb max_len (length m.ext)
        then (then_comes c rest, [], 10)
        else (then_comes c rest, m.ext, status m))
unfolding hlp_collect_media_data
hlp_collect_media_data-stream c max_len os m rest a v e i =
    receive_frame-stream c max_len os m rest 12 13 11 a v e i

-- For a channel below 16, room for 48 bytes on the control connection, and a first media message,
-- behind any messages of other kinds on the data connection, that the destination can take:
-- hlp_media_data_request sends exactly the request's header and its 16 bytes on the control
-- connection, reads the data connection exactly up to the end of that message, and hands its data
-- over whole with the DVR's status.
pub hlp_media_data_request-stream :
    (ctrl c : Conn) (channel sub_channel max_len : ℕ) (os : List Message) (m : Message)
    (rest : List ℕ)
    → channel < 16
    → 48 ≤ ctrl.room
    → length m.ext ≤ max_len
    → All (Other 188) os
    → IsMessage m
    → cmd m ≡ 188
    → c.incoming ≡ stream os m rest
    → hlp_media_data_request ctrl c channel sub_channel (some max_len) ≡ (
        let (h, extdata) = media_request channel sub_channel in
        (sent ctrl (wire h ++ extdata), then_comes c rest, m.ext, status m))
unfolding hlp_media_data_request
hlp_media_data_request-stream ctrl c channel sub_channel max_len os m rest old room fits a v e i =
    let h = (media_request channel sub_channel).0 in
    let ext = (media_request channel sub_channel).1 in
    let size = length-media_request channel sub_channel old in
    let out = llp_send_header-sent ctrl h (omega (arith, size.0)) in
    let size' : length (wire h) ≡ 32 = length-splice h.raw 4 (nv2lm_u32 h.extlen) ∙ size.0 in
    let out' = llp_send_extdata-sent (sent ctrl (wire h)) ext (omega (arith, size.1)) in
    let whole : ltb max_len (length m.ext) ≡ false = ground arith in
    let got = receive_frame-stream c max_len os m rest 3 5 4 a v e i in
    rw out (
      rw out' (
        rw got
          (rw whole (λ j. (sent-append ctrl (wire h) ext j, then_comes c rest, m.ext, status m)))))

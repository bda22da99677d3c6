-- ===== src/Protocol/Login/Reply.antt =====
-- What a login does when the DVR answers.
use tani_dvr.BinTools.{nv2lm_u32}
use tani_dvr.Link.{llp_header_size}
use tani_dvr.Link.Messages.{
  Message, IsMessage, cmd, header_of, then_comes, sent, wire, llp_send_header-sent,
  llp_send_extdata-sent, discard-Message,
}
use tani_dvr.Devinfo.{
  Devinfo, di_vs_pal, di_vs_ntsc, di_vs_unknown, di_ve_mpeg4, di_ve_h264, di_ve_unknown, di_mwp_no,
  di_mwp_yes, di_mwp_unknown,
}
use tani_dvr.Link.{LlHeader}
use tani_dvr.BinTools.{lm2nv_u32}
use tani_dvr.Protocol.{HlpConnection}
use tani_dvr.Protocol.Replies.{Other, stream, hlp_get_header-expected}
use tani_dvr.Prelude.Int.{pos}
use tani_dvr.Protocol.Login.{
  video_sys_of, video_enc_of, mw_preview_of, strncpy8, is_short, login_header, login_extdata,
  login_devinfo, judge_login, hlp_login,
}
use tani_dvr.Prelude.{
  All, Bool-cases, List, arith, false, get_or, if_cases, if◌then◌else◌, inl, inr, length,
  length-set, length-splice, ltb, not, refl, replicate, set, some, splice, ℕ, ◌*◌, ◌+◌, ◌<◌, ◌==◌,
  ◌^◌, ◌∙◌, ◌≡◌, ◌≢◌, ◌≤◌,
}

set_keeps : (xs : List ℕ) (i v n : ℕ) → length xs ≡ n → length (set xs i v) ≡ n
set_keeps xs i v n e = length-set xs i v ∙ e

length-login_header :
    (user passwd : List ℕ) → length (login_header user passwd).raw ≡ llp_header_size
unfolding login_header
length-login_header user passwd =
    let inner = splice (replicate 32 0) 8 (strncpy8 user) in
    let filled : length (splice inner 16 (strncpy8 passwd)) ≡ llp_header_size =
      length-splice inner 16 (strncpy8 passwd) ∙ length-splice (replicate 32 0) 8 (strncpy8 user) in
    let names =
      if is_short user passwd then splice inner 16 (strncpy8 passwd) else replicate 32 0 in
    let size : length names ≡ llp_header_size = elim (Bool-cases (is_short user passwd)) [
      | inl e ↦ rw e filled
      | inr e ↦ rw e refl
    ] in
    set_keeps _ 31 170 32 (
      set_keeps _ 30 161 32 (
        set_keeps _ 25 1 32
          (set_keeps _ 24 4 32 (set_keeps _ 3 96 32 (set_keeps names 0 160 32 size)))))

hlp_login-judged :
    (s : HlpConnection) (d : Devinfo) (user passwd : List ℕ) (os : List Message) (m : Message)
    (rest : List ℕ)
    → length user + length passwd ≤ 250
    → All (Other 176) os
    → IsMessage m
    → cmd m ≡ 176
    → s.conn.incoming ≡ stream os m rest
    → llp_header_size + length (login_extdata user passwd) ≤ s.conn.room
    → hlp_login s (some d) user passwd ≡ (
        let c =
          then_comes
            (sent (sent s.conn (wire (login_header user passwd))) (login_extdata user passwd))
            rest in
        let (s', ret) = judge_login (record s { conn = c }) (header_of m) in
        (s', some (login_devinfo (header_of m) d), ret))
unfolding hlp_login
hlp_login-judged s d user passwd os m rest short a v e i room =
    let h = login_header user passwd in
    let ext = login_extdata user passwd in
    let size = length-login_header user passwd in
    let c1 = sent s.conn (wire h) in
    let fits : ltb 250 (length user + length passwd) ≡ false = ground arith in
    let out = llp_send_header-sent s.conn h (omega arith) in
    let out' =
      llp_send_extdata-sent c1 ext (omega (arith, length-splice h.raw 4 (nv2lm_u32 h.extlen))) in
    let got = hlp_get_header-expected os (sent c1 ext) m rest 176 a v e i in
    rw (fits, out) (rw out' (rw got (rw (discard-Message (sent c1 ext) m rest) refl)))

-- What the header `head` of the reply tells of the device: `d'` is `d` with the six fields of it.
pub record Tells (head : List ℕ) (d d' : Devinfo) : Type 0 where
  pub pal : get_or head 28 0 ≡ 0 → d'.video_sys ≡ di_vs_pal
  pub ntsc : get_or head 28 0 ≡ 1 → d'.video_sys ≡ di_vs_ntsc
  pub other_sys : 1 < get_or head 28 0 → d'.video_sys ≡ di_vs_unknown
  pub mpeg4 : get_or head 11 0 ≡ 8 → d'.video_enc ≡ di_ve_mpeg4
  pub h264 : get_or head 11 0 ≡ 9 → d'.video_enc ≡ di_ve_h264
  pub other_enc : get_or head 11 0 ≢ 8 → get_or head 11 0 ≢ 9 → d'.video_enc ≡ di_ve_unknown
  pub no_preview : get_or head 1 0 ≡ 0 → d'.mw_preview ≡ di_mwp_no
  pub preview : get_or head 1 0 ≡ 1 → d'.mw_preview ≡ di_mwp_yes
  pub other_preview : 1 < get_or head 1 0 → d'.mw_preview ≡ di_mwp_unknown
  pub channels : d'.n_channels ≡ pos (get_or head 10 0)
  pub type : d'.dev_type ≡ pos (get_or head 12 0)
  pub subtype : d'.dev_subtype ≡ pos (get_or head 13 0)
  pub others :
      record d' {
        video_sys = d.video_sys;
        video_enc = d.video_enc;
        mw_preview = d.mw_preview;
        n_channels = d.n_channels;
        dev_type = d.dev_type;
        dev_subtype = d.dev_subtype;
      }
      ≡ d

login_devinfo-Tells : (h : LlHeader) (d : Devinfo) → Tells h.raw d (login_devinfo h d)
unfolding login_devinfo video_sys_of video_enc_of mw_preview_of
login_devinfo-Tells h d = record {
  pal = λ e. ground (arith, e);
  ntsc = λ e. ground (arith, e);
  other_sys = λ e. ground (arith, e);
  mpeg4 = λ e. ground (arith, e);
  h264 = λ e. ground (arith, e);
  other_enc = λ e f. ground (arith, e, f);
  no_preview = λ e. ground (arith, e);
  preview = λ e. ground (arith, e);
  other_preview = λ e. ground (arith, e);
  channels = refl;
  type = refl;
  subtype = refl;
  others = refl;
}

-- The outcome that byte 8 of the reply's header decides: 0 is a success, with the symbol of bytes 16
-- to 19; anything else a refusal, with the code of byte 9 on top of 256.
abbrev pub Decided : List ℕ → HlpConnection → HlpConnection → ℕ → Type 0
Decided head s s' ret =
    (get_or head 8 0 ≡ 0
      → (ret ≡ 0)
        × (s'.unique_login_symbol
            ≡ get_or head 16 0
              + 2 ^ 8 * get_or head 17 0
              + 2 ^ 16 * get_or head 18 0
              + 2 ^ 24 * get_or head 19 0))
    × (get_or head 8 0 ≢ 0
        → (ret ≡ get_or head 9 0 + 256) × (s'.unique_login_symbol ≡ s.unique_login_symbol))

judge_login-Decided :
    (s : HlpConnection) (h : LlHeader)
    → Decided h.raw s (judge_login s h).0 (judge_login s h).1 × ((judge_login s h).0.conn ≡ s.conn)
unfolding judge_login lm2nv_u32
judge_login-Decided s h =
    let P : HlpConnection × ℕ → Type 0 = λ r. Decided h.raw s r.0 r.1 × (r.0.conn ≡ s.conn) in
    if_cases P (not (get_or h.raw 8 0 == 0))
      (λ e. ((λ z. absurd (ground (arith, e, z)), λ z. (omega arith, refl)), refl))
      (λ e. ((λ z. (refl, omega arith), λ z. absurd (ground (arith, e, z))), refl))

-- With names that are not too long, room to send, and a stream in which a reply to the login comes
-- behind any messages of other kinds: hlp_login sends the header and the names, consumes the stream
-- exactly up to the end of the reply, and takes six fields of the device information from the bytes
-- of its header, as listed in Tells. If byte 8 of it is 0 it succeeds with 0 and the symbol of bytes
-- 16 to 19; else it keeps the old symbol and returns the code of byte 9 plus 256.
pub hlp_login-stream :
    (s : HlpConnection) (d : Devinfo) (user passwd : List ℕ) (os : List Message) (m : Message)
    (rest : List ℕ)
    → length user + length passwd ≤ 250
    → All (Other 176) os
    → IsMessage m
    → cmd m ≡ 176
    → s.conn.incoming ≡ stream os m rest
    → llp_header_size + length (login_extdata user passwd) ≤ s.conn.room
    → (s' : HlpConnection) × (d' : Devinfo) × (ret : ℕ) × (hlp_login s (some d) user passwd
        ≡ (s', some d', ret))
      × (s'.conn
          ≡ then_comes
              (sent (sent s.conn (wire (login_header user passwd))) (login_extdata user passwd))
              rest)
      × Decided m.head s s' ret
      × Tells m.head d d'
hlp_login-stream s d user passwd os m rest short a v e i room =
    let c =
      then_comes (sent (sent s.conn (wire (login_header user passwd))) (login_extdata user passwd))
        rest in
    let h = header_of m in
    let (decided, kept) = judge_login-Decided (record s { conn = c }) h in
    (
      (judge_login (record s { conn = c }) h).0,
      login_devinfo h d,
      (judge_login (record s { conn = c }) h).1,
      hlp_login-judged s d user passwd os m rest short a v e i room,
      kept,
      decided,
      login_devinfo-Tells h d,
    )

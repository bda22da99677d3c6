-- ===== src/Protocol/Login.antt =====
-- hlp_login.
pub mod Reply
use tani_dvr.Prelude.Int.{pos}
use tani_dvr.BinTools.{lm2nv_u32}
use tani_dvr.Link.{
  LlHeader, init_header, llp_get_discard_extdata, llp_send_header, llp_send_extdata,
}
use tani_dvr.Devinfo.{
  Devinfo, VideoSys, di_vs_pal, di_vs_ntsc, di_vs_unknown, VideoEnc, di_ve_mpeg4, di_ve_h264,
  di_ve_unknown, MwPreview, di_mwp_no, di_mwp_yes, di_mwp_unknown,
}
use tani_dvr.Protocol.{HlpConnection, remote_retcode_offset, hlp_get_header}
use tani_dvr.Prelude.{
  Bool, List, Option, [], get_or, if◌then◌else◌, leb, length, ltb, none, not, replicate, set, some,
  splice, ℕ, ◌&&◌, ◌++◌, ◌+◌, ◌-◌, ◌==◌, ◌∷◌,
}

abbrev pub max_user_passwd_len : ℕ
max_user_passwd_len = 250

-- `strncpy (dst, s, 8)` for a string of at most 8 bytes, which fills up with zeros.
abbrev pub strncpy8 : List ℕ → List ℕ
strncpy8 s = s ++ replicate (8 - length s) 0

-- Both short: in the header.
abbrev pub is_short : List ℕ → List ℕ → Bool
is_short user passwd = leb (length user) 8 && leb (length passwd) 8

-- The extended data, "user&&passwd"; the arrays are large enough for it.
unfoldable pub login_extdata : List ℕ → List ℕ → List ℕ
login_extdata user passwd = if is_short user passwd then [] else user ++ b'&' ∷ b'&' ∷ passwd

unfoldable pub login_header : List ℕ → List ℕ → LlHeader
login_header user passwd =
    let names =
      if is_short user passwd
      then splice (splice init_header.raw 8 (strncpy8 user)) 16 (strncpy8 passwd)
      else init_header.raw in
    record {
      raw = set (set (set (set (set (set names 0 160) 3 96) 24 4) 25 1) 30 161) 31 170;
      extlen = length (login_extdata user passwd);
    }

unfoldable pub video_sys_of : ℕ → VideoSys
video_sys_of b = if b == 0 then di_vs_pal else if b == 1 then di_vs_ntsc else di_vs_unknown

unfoldable pub video_enc_of : ℕ → VideoEnc
video_enc_of b = if b == 8 then di_ve_mpeg4 else if b == 9 then di_ve_h264 else di_ve_unknown

unfoldable pub mw_preview_of : ℕ → MwPreview
mw_preview_of b = if b == 0 then di_mwp_no else if b == 1 then di_mwp_yes else di_mwp_unknown

unfoldable pub login_devinfo : LlHeader → Devinfo → Devinfo
login_devinfo h d = record d {
  video_sys = video_sys_of (get_or h.raw 28 0);
  video_enc = video_enc_of (get_or h.raw 11 0);
  mw_preview = mw_preview_of (get_or h.raw 1 0);
  n_channels = pos (get_or h.raw 10 0);
  dev_type = pos (get_or h.raw 12 0);
  dev_subtype = pos (get_or h.raw 13 0);
}

-- Behind the reply: refused with the DVR's code, or logged in.
unfoldable pub judge_login : HlpConnection → LlHeader → HlpConnection × ℕ
judge_login s h =
    if not (get_or h.raw 8 0 == 0)
    then (s, get_or h.raw 9 0 + remote_retcode_offset)
    else (record s { unique_login_symbol = lm2nv_u32 h.raw 16 }, 0)

-- `none` stands for a `devinfo` of NULL.
unfoldable pub hlp_login :
    HlpConnection → Option Devinfo → List ℕ → List ℕ → HlpConnection × Option Devinfo × ℕ
hlp_login s devinfo user passwd =
    let (c1, _) = llp_send_header s.conn (login_header user passwd) in
    let (c2, _) = llp_send_extdata c1 (login_extdata user passwd) in
    let (c3, h, retcode) = hlp_get_header c2 176 in
    let (c4, _) = llp_get_discard_extdata c3 h in
    let (s', ret) = judge_login (record s { conn = c4 }) h in
    if ltb max_user_passwd_len (length user + length passwd)
    then (s, devinfo, 1)
    else if not (retcode == 0)
    then (record s { conn = c3 }, devinfo, 2)
    else (s', map_devinfo (login_devinfo h) devinfo, ret)
  where
    map_devinfo : (Devinfo → Devinfo) → Option Devinfo → Option Devinfo
    map_devinfo f none = none
    map_devinfo f (some d) = some (f d)

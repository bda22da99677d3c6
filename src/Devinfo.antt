-- ===== src/Devinfo.antt =====
-- src/devinfo.h, src/devinfo.c and, of src/hlprotocol.c, extract_string and
-- update_devinfo_from_system_information. A string is the bytes before its '\0'.
pub mod Text
use tani_dvr.Prelude.Int.{ℤ, pos, minus}
use tani_dvr.Link.{LlHeader}
use tani_dvr.Prelude.{
  ==_iff, All, All-append, All-get_or, All-split, Bool, Bool-cases, List, Option, [], add-one, ap,
  append-nil, append_assoc, append_inj, arith, dec_lt, drop, drop-drop, drop-length_append,
  drop-past, false, flatten, get_or, get_or-append, get_or-cons, get_or-past, get_or-set,
  get_or-splice, get_or-splice_in, get_or-splice_out, get_or-tabulate, if◌then◌else◌, inl, inr, leb,
  leb→le, length, length-append, length-drop, length-replicate, length-set, length-splice,
  length-tabulate, length-take, list_ext, ltb, ltb→le, ltb→lt, lt→ltb, map, none, not, refl,
  replicate, set, some, splice, sub_size, suc, sym, tabulate, tabulate-add, tabulate-get_or,
  tabulate_congr, take, take-append-drop, take-length_append, take-past, true, window, window-front,
  window_cut, window_split, window_total, zero, ℕ, ◌%◌, ◌&&◌, ◌*◌, ◌++◌, ◌+◌, ◌-◌, ◌/◌, ◌<◌, ◌==◌,
  ◌^◌, ◌||◌, ◌↔◌, ◌∙◌, ◌∷◌, ◌≡◌, ◌≢◌, ◌≤◌, ◌⊎◌,
}

pub data VideoSys : Type 0 where
  di_vs_undefined di_vs_ntsc di_vs_pal di_vs_unknown : VideoSys

pub data VideoEnc : Type 0 where
  di_ve_undefined di_ve_mpeg4 di_ve_h264 di_ve_unknown : VideoEnc

pub data MwPreview : Type 0 where
  di_mwp_undefined di_mwp_yes di_mwp_no di_mwp_unknown : MwPreview

pub data HdType : Type 0 where
  di_hd_undefined di_hd_ata di_hd_sata di_hd_unknown : HdType

pub record Devinfo : Type 0 where
  pub video_sys : VideoSys
  pub video_enc : VideoEnc
  pub mw_preview : MwPreview
  pub n_channels : ℤ
  pub dev_type : ℤ
  pub dev_subtype : ℤ
  pub hd_type : HdType
  pub dev_sn : List ℕ
  pub dev_ver : List ℕ
  pub dev_type_chipset : List ℕ
  pub lang_sup : List ℕ
  pub func_list : List ℕ
  pub oem_info : List ℕ
  pub netrun_stat : List ℕ
  pub split_screen : List ℕ
  pub func_capability : List ℕ
  pub hd_part_cap : List ℕ
  pub wi_alarm : List ℕ
  pub access_url : List ℕ

-- `di_init`, which does not set `dev_type_chipset`.
unfoldable pub di_init : Devinfo → Devinfo
di_init d = record d {
  video_sys = di_vs_undefined;
  video_enc = di_ve_undefined;
  mw_preview = di_mwp_undefined;
  n_channels = minus 1;
  dev_type = minus 1;
  dev_subtype = minus 1;
  hd_type = di_hd_undefined;
  dev_sn = [];
  dev_ver = [];
  lang_sup = [];
  func_list = [];
  oem_info = [];
  netrun_stat = [];
  split_screen = [];
  func_capability = [];
  hd_part_cap = [];
  wi_alarm = [];
  access_url = [];
}

abbrev pub di_str_maxlen : ℕ
di_str_maxlen = 1024

-- One character of extract_string; a `char` is signed, so bytes from 128 are below ' '.
unfoldable pub clean : ℕ → ℕ
clean c = if (ltb c 32 || leb 128 c) && not (c == 9) then 32 else c

-- `src` is the `src_len` bytes at `src_p`; the result stands before the '\0' in `dst`.
unfoldable pub extract_string : List ℕ → ℕ → List ℕ
extract_string src dst_maxlen =
    let to_do = if ltb (dst_maxlen - 1) (length src) then dst_maxlen - 1 else length src in
    map clean (take to_do src)

unfoldable pub hd_type_of : ℕ → HdType
hd_type_of b = if b == 0 then di_hd_ata else if b == 1 then di_hd_sata else di_hd_unknown

-- The cases 11, 19 and 20: without `break` each goes on with the next.
unfoldable pub update_lang_sup : List ℕ → Devinfo → Devinfo
update_lang_sup s d = record d { lang_sup = s }

unfoldable pub update_split_screen : List ℕ → Devinfo → Devinfo
update_split_screen s d = update_lang_sup s (record d { split_screen = s })

unfoldable pub update_dev_type_chipset : List ℕ → Devinfo → Devinfo
update_dev_type_chipset s d = update_split_screen s (record d { dev_type_chipset = s })

-- `update_devinfo_from_system_information` for a `devinfo` that is not NULL.
unfoldable pub update_devinfo : List ℕ → LlHeader → Devinfo → Devinfo
update_devinfo extdata h d =
    let infotype = get_or h.raw 8 0 in
    let s = extract_string extdata di_str_maxlen in
    if infotype == 2
    then record d { hd_type = hd_type_of (get_or h.raw 13 0) }
    else if infotype == 7
    then record d { dev_sn = s }
    else if infotype == 8
    then record d { dev_ver = s }
    else if infotype == 11
    then update_dev_type_chipset s d
    else if infotype == 19
    then update_split_screen s d
    else if infotype == 20
    then update_lang_sup s d
    else if infotype == 26
    then record d { func_list = s }
    else if infotype == 27
    then record d { wi_alarm = s }
    else if infotype == 29
    then record d { oem_info = s }
    else if infotype == 30
    then record d { netrun_stat = s }
    else if infotype == 31
    then record d { func_capability = s }
    else if infotype == 33
    then record d { hd_part_cap = s }
    else if infotype == 39
    then record d { access_url = s }
    else d

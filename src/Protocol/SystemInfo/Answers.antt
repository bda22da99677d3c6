-- ===== src/Protocol/SystemInfo/Answers.antt =====
-- Several queries at once: every answer up to that to the NOP is taken in, in order.
use tani_dvr.Prelude.Int.{ℤ, pos, negsuc}
use tani_dvr.BinTools.{nv2lm_u32}
use tani_dvr.Link.{
  llp_get_discard_extdata, llp_hd_cmd, Conn, LlHeader, llp_header_size, llp_hd_nop_req,
  llp_hd_nop_reply, init_header, with_raw, llp_get_extdata_sbuff, llp_send_nop,
}
use tani_dvr.Link.Messages.{
  sent-append, encode, Message, IsMessage, cmd, header_of, then_comes, sent, wire,
  llp_send_header-sent, llp_get_header-Message, llp_get_extdata_sbuff-Message,
}
use tani_dvr.Devinfo.{Devinfo, update_devinfo}
use tani_dvr.Protocol.Replies.{stream}
use tani_dvr.Protocol.SystemInfo.{
  sysinfo_ed_len, sysinfo_header, send_queries, collect_replies,
  hlp_get_system_information_multiple,
}
use tani_dvr.Prelude.{
  All, List, [], ap, append-nil, append_assoc, arith, false, if◌then◌else◌, length, length-append,
  length-splice, not, refl, suc, sym, true, zero, ℕ, ◌%◌, ◌*◌, ◌++◌, ◌+◌, ◌-◌, ◌<◌, ◌==◌, ◌∙◌, ◌∷◌,
  ◌≡◌, ◌≤◌,
}

-- What the answers say, one after the other.
pub learn_all : List Message → Devinfo → Devinfo
learn_all [] d = d
learn_all (m ∷ ms) d = learn_all ms (update_devinfo m.ext (header_of m) d)

-- A message that fits the buffer.
abbrev pub Fitting : Message → Type 0
Fitting m = IsMessage m × (length m.ext ≤ sysinfo_ed_len)

abbrev pub Answer : Message → Type 0
Answer m = Fitting m × ((cmd m == llp_hd_nop_reply) ≡ false)

length-stream :
    (ms : List Message) (m : Message) (rest : List ℕ)
    → All Answer ms
    → IsMessage m
    → length ms < length (stream ms m rest)
length-stream [] m rest a v =
    omega (arith, v.size, length-append (m.head ++ m.ext) rest, length-append m.head m.ext)
length-stream (o ∷ os) m rest a v = omega (
  arith,
  length-stream os m rest a.1 v,
  a.0.0.0.size,
  length-append (o.head ++ o.ext) (stream os m rest),
  length-append o.head o.ext,
)

abbrev after_extdata : ℕ → Devinfo → LlHeader → Conn × List ℕ × ℤ → Conn × Devinfo × ℕ
after_extdata k d h (c, extdata, extdata_len) = elim extdata_len [
  | pos n ↦
      if llp_hd_cmd h == llp_hd_nop_reply
      then (c, d, 0)
      else collect_replies k c (update_devinfo extdata h d)
  | negsuc n ↦ ((llp_get_discard_extdata c h).0, d, 3)
]

abbrev after_header : ℕ → Devinfo → Conn × LlHeader × ℕ → Conn × Devinfo × ℕ
after_header k d (c, h, failed) =
    if not (failed == 0)
    then (c, d, 2)
    else after_extdata k d h (llp_get_extdata_sbuff c h sysinfo_ed_len)

-- One round on a message.
collect_replies-Message :
    (k : ℕ) (c : Conn) (d : Devinfo) (m : Message) (rest : List ℕ)
    → Fitting m
    → c.incoming ≡ encode m ++ rest
    → collect_replies (suc k) c d ≡ (
        if cmd m == llp_hd_nop_reply
        then (then_comes c rest, d, 0)
        else collect_replies k (then_comes c rest) (update_devinfo m.ext (header_of m) d))
unfolding collect_replies
collect_replies-Message k c d m rest v i =
    ap (after_header k d)
      (llp_get_header-Message c m (m.ext ++ rest) v.0 (i ∙ append_assoc m.head m.ext rest))
    ∙ ap (after_extdata k d (header_of m))
        (llp_get_extdata_sbuff-Message c m rest sysinfo_ed_len v.0 v.1)

collect_replies-stream :
    (ms : List Message) (k : ℕ) (c : Conn) (d : Devinfo) (m : Message) (rest : List ℕ)
    → length ms < k
    → All Answer ms
    → Fitting m
    → cmd m ≡ llp_hd_nop_reply
    → c.incoming ≡ stream ms m rest
    → collect_replies k c d ≡ (then_comes c rest, learn_all ms d, 0)
unfolding learn_all
collect_replies-stream ms zero c d m rest h a v e i = absurd (omega arith)
collect_replies-stream [] (suc k) c d m rest h a v e i =
    let is_nop : (cmd m == llp_hd_nop_reply) ≡ true = ground arith in
    collect_replies-Message k c d m rest v i ∙ rw is_nop refl
collect_replies-stream (o ∷ os) (suc k) c d m rest h a v e i =
    let later = stream os m rest in
    let c' = then_comes c later in
    collect_replies-Message k c d o later a.0.0 i
    ∙ rw a.0.1 (
        collect_replies-stream os k c' (update_devinfo o.ext (header_of o) d) m rest (omega arith)
          a.1 v e refl)

-- The bytes of the queries.
pub queries : ℕ → ℕ → List ℕ
queries infotype zero = []
queries infotype (suc n) = wire (sysinfo_header (infotype % 256) 0) ++ queries (infotype + 1) n

send_queries-sent :
    (n : ℕ) (c : Conn) (infotype : ℕ)
    → llp_header_size * n ≤ c.room
    → send_queries c infotype n ≡ (sent c (queries infotype n), true)
unfolding send_queries queries
send_queries-sent zero c infotype h =
    let bytes = sym (append-nil c.outgoing) in
    let left : c.room ≡ c.room - 0 = omega arith in
    λ i. (record c { outgoing = bytes i; room = left i }, true)
send_queries-sent (suc n) c infotype h =
    let q = sysinfo_header (infotype % 256) 0 in
    let size : length q.raw ≡ llp_header_size = refl in
    let size' : length (wire q) ≡ llp_header_size =
      length-splice q.raw 4 (nv2lm_u32 q.extlen) ∙ size in
    let out = llp_send_header-sent c q (omega arith) in
    rw out (
      send_queries-sent n (sent c (wire q)) (infotype + 1) (omega arith)
      ∙ (λ i. (sent-append c (wire q) (queries (infotype + 1) n) i, true)))

length-queries : (n infotype : ℕ) → length (queries infotype n) ≡ llp_header_size * n
unfolding queries
length-queries zero infotype = refl
length-queries (suc n) infotype =
    let q = sysinfo_header (infotype % 256) 0 in
    let size : length (wire q) ≡ llp_header_size = length-splice q.raw 4 (nv2lm_u32 q.extlen) in
    omega (
      arith,
      length-append (wire q) (queries (infotype + 1) n),
      size,
      length-queries n (infotype + 1),
    )

abbrev pub nop_query : LlHeader
nop_query = with_raw init_header 0 llp_hd_nop_req

-- With room to send, and a DVR that sends any number of messages that fit the buffer and then its
-- answer to the NOP: hlp_get_system_information_multiple returns 0, has sent the queries and the
-- NOP, has taken every one of those messages into the device information in order, and has consumed
-- the stream exactly up to the end of the answer to the NOP.
pub hlp_get_system_information_multiple-stream :
    (c : Conn) (d : Devinfo) (first total : ℕ) (ms : List Message) (m : Message) (rest : List ℕ)
    → llp_header_size * (total + 1) ≤ c.room
    → All Answer ms
    → Fitting m
    → cmd m ≡ llp_hd_nop_reply
    → c.incoming ≡ stream ms m rest
    → hlp_get_system_information_multiple c d first total
      ≡ (then_comes (sent c (queries first total ++ wire nop_query)) rest, learn_all ms d, 0)
unfolding hlp_get_system_information_multiple llp_send_nop
hlp_get_system_information_multiple-stream c d first total ms m rest room a v e i =
    let asked = sent c (queries first total) in
    let out = send_queries-sent total c first (omega arith) in
    let size : length nop_query.raw ≡ llp_header_size = refl in
    let out' = llp_send_header-sent asked nop_query (omega (arith, length-queries total first)) in
    let enough : length ms < length c.incoming =
      omega (arith, length-stream ms m rest a v.0, ap length i) in
    let got =
      collect_replies-stream ms (length c.incoming) (sent asked (wire nop_query)) d m rest enough a
        v e i in
    rw out (
      rw out' (
        got ∙ (λ j. (
          then_comes (sent-append c (queries first total) (wire nop_query) j) rest,
          learn_all ms d,
          0,
        ))))

-- ===== src/Link/Messages.antt =====
-- What the peer sends as a list of messages: each is a header that shows the length of the extended
-- data behind it.
use tani_dvr.Prelude.Int.{ℤ, pos, minus}
use tani_dvr.BinTools.{lm2nv_u32, nv2lm_u32}
use tani_dvr.BinTools.RoundTrip.{lm2nv_u32-nv2lm_u32}
use tani_dvr.Link.{
  llp_send_extdata, llp_send_header, fwrite, Conn, LlHeader, llp_header_size, discard_chunk_size,
  llp_get_header, discard, llp_get_discard_extdata, llp_get_extdata_sbuff, to_int,
}
use tani_dvr.Prelude.{
  Bool-cases, List, [], ap, append_assoc, arith, drop, drop-drop, drop-length_append, drop-past,
  false, get_or, get_or-splice_in, if◌then◌else◌, inl, inr, leb, length, length-append, length-drop,
  length-splice, length-take, list_ext, ltb, refl, replicate, splice, suc, sym, take,
  take-length_append, take-past, true, zero, ℕ, ◌++◌, ◌-◌, ◌<◌, ◌==◌, ◌^◌, ◌∙◌, ◌∷◌, ◌≡◌, ◌≤◌,
}

pub record Message : Type 0 where
  pub head : List ℕ
  pub ext : List ℕ

pub record IsMessage (m : Message) : Type 0 where
  pub size : length m.head ≡ llp_header_size
  pub shown : lm2nv_u32 m.head 4 ≡ length m.ext
  pub small : length m.ext < 2 ^ 31

abbrev pub encode : Message → List ℕ
encode m = m.head ++ m.ext

abbrev pub cmd : Message → ℕ
cmd m = get_or m.head 0 0

abbrev pub header_of : Message → LlHeader
header_of m = record { raw = m.head; extlen = length m.ext }

-- A connection with `xs` to come.
abbrev pub then_comes : Conn → List ℕ → Conn
then_comes c xs = record c { incoming = xs }

splice_all : (base xs : List ℕ) → length base ≡ length xs → splice base 0 xs ≡ xs
splice_all base xs e = list_ext (splice base 0 xs) xs (length-splice base 0 xs ∙ e) (λ i h.
    get_or-splice_in base 0 xs i i (omega arith) (omega (arith, length-splice base 0 xs))
      (omega arith))

take_front : (n : ℕ) (xs ys : List ℕ) → length xs ≡ n → take n (xs ++ ys) ≡ xs
take_front n xs ys e = ap (λ k. take k (xs ++ ys)) (sym e) ∙ take-length_append xs ys

drop_front : (n : ℕ) (xs ys : List ℕ) → length xs ≡ n → drop n (xs ++ ys) ≡ ys
drop_front n xs ys e = ap (λ k. drop k (xs ++ ys)) (sym e) ∙ drop-length_append xs ys

pub llp_get_header-Message :
    (c : Conn) (m : Message) (rest : List ℕ)
    → IsMessage m
    → c.incoming ≡ m.head ++ rest
    → llp_get_header c ≡ (then_comes c rest, header_of m, 0)
unfolding llp_get_header
llp_get_header-Message c m rest v e =
    let got : take llp_header_size c.incoming ≡ m.head =
      ap (take llp_header_size) e ∙ take_front llp_header_size m.head rest v.size in
    let left : drop llp_header_size c.incoming ≡ rest =
      ap (drop llp_header_size) e ∙ drop_front llp_header_size m.head rest v.size in
    let raw : splice (replicate llp_header_size 0) 0 m.head ≡ m.head =
      splice_all (replicate llp_header_size 0) m.head (sym v.size) in
    rw (got, left) (rw raw (rw (v.size, v.shown) refl))

-- The chunked loop of llp_get_discard_extdata, with at least as many rounds as bytes to go, consumes
-- exactly those bytes and returns 0, or all there are and returns 2 if there are fewer.
pub discard_lem :
    (k : ℕ) (c : Conn) (rem : ℕ)
    → rem ≤ k
    → discard k c rem
      ≡ (then_comes c (drop rem c.incoming), if leb rem (length c.incoming) then 0 else 2)
unfolding discard
discard_lem zero c zero h = ground arith
discard_lem zero c (suc rem) h = absurd (omega arith)
discard_lem (suc k) c zero h = ground arith
discard_lem (suc k) c (suc r) h =
    let rem : ℕ = suc r in
    let n = if ltb discard_chunk_size rem then discard_chunk_size else rem in
    let xs = c.incoming in
    let some_read : 0 < n = ground arith in
    let most : n ≤ rem = ground arith in
    let c' = then_comes c (drop n xs) in
    let more : (rem == 0) ≡ false = ground arith in
    elim (Bool-cases (length (take n xs) == n)) [
      | inl all ↦
          let there : n ≤ length xs = ground (arith, length-take n xs) in
          let later = discard_lem k c' (rem - n) (omega arith) in
          let left : drop (rem - n) (drop n xs) ≡ drop rem xs =
            drop-drop (rem - n) n rem xs (omega arith) in
          let same : leb (rem - n) (length (drop n xs)) ≡ leb rem (length xs) =
            ground (arith, length-drop n xs) in
          rw (more, all) (later ∙ (λ i. (then_comes c (left i), if same i then 0 else 2)))
      | inr short ↦
          let few : length xs < n = ground (arith, length-take n xs) in
          let none_left : drop n xs ≡ drop rem xs =
            drop-past n xs (omega arith) ∙ sym (drop-past rem xs (omega arith)) in
          let fails : leb rem (length xs) ≡ false = ground arith in
          rw (more, short, fails) (λ i. (then_comes c (none_left i), 2))
    ]

-- The extended data of a message is skipped as a whole.
pub discard-Message :
    (c : Conn) (m : Message) (rest : List ℕ)
    → llp_get_discard_extdata (then_comes c (m.ext ++ rest)) (header_of m) ≡ (then_comes c rest, 0)
unfolding llp_get_discard_extdata
discard-Message c m rest =
    let enough : leb (length m.ext) (length (m.ext ++ rest)) ≡ true =
      ground (arith, length-append m.ext rest) in
    discard_lem (length m.ext) (then_comes c (m.ext ++ rest)) (length m.ext) (omega arith)
    ∙ (λ i. (then_comes c (drop-length_append m.ext rest i), if enough i then 0 else 2))

-- Into a buffer that is large enough it goes unchanged.
pub llp_get_extdata_sbuff-Message :
    (c : Conn) (m : Message) (rest : List ℕ) (buflen : ℕ)
    → IsMessage m
    → length m.ext ≤ buflen
    → llp_get_extdata_sbuff (then_comes c (m.ext ++ rest)) (header_of m) buflen
      ≡ (then_comes c rest, m.ext, pos (length m.ext))
unfolding llp_get_extdata_sbuff to_int
llp_get_extdata_sbuff-Message c m rest buflen v h =
    rw (take-length_append m.ext rest, drop-length_append m.ext rest) (by_size m.ext v.small h)
  where
    by_size :
        (xs : List ℕ)
        → length xs < 2 ^ 31
        → length xs ≤ buflen
        → ◌≡◌ {A = Conn × List ℕ × ℤ}
            (if length xs == 0
              then (then_comes c (xs ++ rest), [], pos 0)
              else if ltb buflen (length xs)
              then (then_comes c (xs ++ rest), [], minus 2)
              else if length xs == length xs
              then (
                then_comes c rest,
                xs,
                if ltb (length xs) (2 ^ 31) then pos (length xs) else minus (2 ^ 32 - length xs),
              )
              else (then_comes c rest, xs, minus 1))
            (then_comes c rest, xs, pos (length xs))
    by_size [] h h' = refl
    by_size (x ∷ xs) h h' = ground arith

-- The 32 bytes of a header as they are sent, with its length in their place.
abbrev pub wire : LlHeader → List ℕ
wire h = splice h.raw 4 (nv2lm_u32 h.extlen)

abbrev pub sent : Conn → List ℕ → Conn
sent c xs = record c { outgoing = c.outgoing ++ xs; room = c.room - length xs }

pub sent-append : (c : Conn) (xs ys : List ℕ) → sent (sent c xs) ys ≡ sent c (xs ++ ys)
sent-append c xs ys =
    let bytes = append_assoc c.outgoing xs ys in
    let left : c.room - length xs - length ys ≡ c.room - length (xs ++ ys) =
      omega (arith, length-append xs ys) in
    λ i. record c { outgoing = bytes i; room = left i }

pub fwrite-sent : (c : Conn) (xs : List ℕ) → length xs ≤ c.room → fwrite c xs ≡ (sent c xs, true)
fwrite-sent c xs h =
    let all : take c.room xs ≡ xs = take-past c.room xs h in
    let fits : leb (length xs) c.room ≡ true = ground arith in
    λ i. (record c { outgoing = c.outgoing ++ all i; room = c.room - length xs }, fits i)

pub llp_send_header-sent :
    (c : Conn) (h : LlHeader) → length h.raw ≤ c.room → llp_send_header c h ≡ (sent c (wire h), 0)
unfolding llp_send_header
llp_send_header-sent c h p =
    let out = fwrite-sent c (wire h) (omega (arith, length-splice h.raw 4 (nv2lm_u32 h.extlen))) in
    λ i. if (out i).1 then ((out i).0, 0) else ((out i).0, 1)

pub llp_send_extdata-sent :
    (c : Conn) (xs : List ℕ) → length xs ≤ c.room → llp_send_extdata c xs ≡ (sent c xs, 0)
unfolding llp_send_extdata
llp_send_extdata-sent c xs p =
    let out = fwrite-sent c xs p in λ i. if (out i).1 then ((out i).0, 0) else ((out i).0, 1)

-- A header of 32 bytes with a 32-bit length, sent with a payload behind it and given room to send,
-- is read back by llp_get_header on the other side with that length, and the payload is what comes
-- next.
pub llp_get_header-llp_send_header :
    (c d : Conn) (h : LlHeader) (payload rest : List ℕ)
    → length h.raw ≡ llp_header_size
    → h.extlen < 2 ^ 32
    → length h.raw ≤ c.room
    → d.incoming ≡ (wire h ++ payload) ++ rest
    → ((llp_send_header c h).0.outgoing ≡ c.outgoing ++ wire h)
      × (llp_get_header d
          ≡ (then_comes d (payload ++ rest), record { raw = wire h; extlen = h.extlen }, 0))
unfolding llp_get_header
llp_get_header-llp_send_header c d h payload rest size small room e =
    let full : length (wire h) ≡ llp_header_size =
      length-splice h.raw 4 (nv2lm_u32 h.extlen) ∙ size in
    let next : d.incoming ≡ wire h ++ (payload ++ rest) = e ∙ append_assoc (wire h) payload rest in
    let got : take llp_header_size d.incoming ≡ wire h =
      ap (take llp_header_size) next ∙ take_front llp_header_size (wire h) (payload ++ rest) full in
    let left : drop llp_header_size d.incoming ≡ payload ++ rest =
      ap (drop llp_header_size) next ∙ drop_front llp_header_size (wire h) (payload ++ rest) full in
    let raw : splice (replicate llp_header_size 0) 0 (wire h) ≡ wire h =
      splice_all (replicate llp_header_size 0) (wire h) (sym full) in
    let shown : lm2nv_u32 (wire h) 4 ≡ h.extlen =
      lm2nv_u32-nv2lm_u32 h.raw 4 h.extlen (omega arith) small in
    (
      ap (λ r. r.0.outgoing) (llp_send_header-sent c h room),
      rw (got, left) (rw raw (rw (full, shown) refl)),
    )

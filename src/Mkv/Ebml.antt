-- ===== src/Mkv/Ebml.antt =====
-- A reader of EBML, the format of Matroska files: an element is an identifier, a size and as many
-- bytes; the elements inside an element are found by their identifiers.
use tani_dvr.BinTools.{byte_at}
use tani_dvr.BinTools.RoundTrip.{mm_value}
use tani_dvr.Prelude.{
  List, Option, [], drop, false, if◌then◌else◌, leb, none, some, suc, take, true, zero, ℕ, ◌%◌, ◌*◌,
  ◌++◌, ◌+◌, ◌-◌, ◌==◌, ◌^◌, ◌∷◌,
}

-- The bytes of a number, told by the highest bit set in the first of them.
abbrev pub vint_length : ℕ → ℕ
vint_length b =
    if leb 128 b
    then 1
    else if leb 64 b
    then 2
    else if leb 32 b
    then 3
    else if leb 16 b
    then 4
    else if leb 8 b
    then 5
    else if leb 4 b
    then 6
    else if leb 2 b
    then 7
    else 8

-- The first element: its identifier with the length mark, its bytes, and what is behind it. A size
-- with all bits set is not known, and the element goes on to the end.
unfoldable pub first_element : List ℕ → ℕ × List ℕ × List ℕ
first_element xs =
    let n = vint_length (byte_at xs 0) in
    let m = vint_length (byte_at xs n) in
    let size = mm_value 0 (take m (drop n xs)) % 2 ^ (7 * m) in
    let body = drop (n + m) xs in
    (
      mm_value 0 (take n xs),
      if size == 2 ^ (7 * m) - 1 then body else take size body,
      if size == 2 ^ (7 * m) - 1 then [] else drop size body,
    )

-- The bytes of the first element with the identifier, among the first `fuel` of a sequence.
unfoldable pub find_element : ℕ → ℕ → List ℕ → Option (List ℕ)
find_element zero id xs = none
find_element (suc fuel) id xs =
    let e = first_element xs in
    elim (e.0 == id) [ true ↦ some e.1 | false ↦ find_element fuel id e.2 ]

-- Of the elements that a reader needs none has more than 16 before it.
unfoldable pub element_at : List ℕ → List ℕ → Option (List ℕ)
element_at [] xs = some xs
element_at (id ∷ ids) xs = elim (find_element 16 id xs) [
  | none ↦ none
  | some body ↦ element_at ids body
]

abbrev pub segment : ℕ
segment = 408125543

abbrev pub track_path : List ℕ
track_path = segment ∷ 374648427 ∷ 174 ∷ []

abbrev pub video_path : List ℕ
video_path = track_path ++ 224 ∷ []

-- What is behind a number of elements.
unfoldable pub skip_elements : ℕ → List ℕ → List ℕ
skip_elements zero xs = xs
skip_elements (suc n) xs = skip_elements n (first_element xs).2

abbrev pub info_path : List ℕ
info_path = segment ∷ 357149030 ∷ []

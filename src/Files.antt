-- ===== src/Files.antt =====
-- src/filetools.c: how files are opened and closed; outfile_write is in Convert.
pub mod Balance
use tani_dvr.Prelude.{
  ==_iff, All, All-append, All-get_or, All-split, Bool, Bool-cases, List, Option, [], add-one, ap,
  append-nil, append_assoc, append_inj, arith, dec_lt, drop, drop-drop, drop-length_append,
  drop-past, false, flatten, get_or, get_or-append, get_or-cons, get_or-past, get_or-set,
  get_or-splice, get_or-splice_in, get_or-splice_out, get_or-tabulate, if_cases, if_false, if_true,
  if◌then◌else◌, inl, inr, leb, leb→le, length, length-append, length-drop, length-replicate,
  length-set, length-splice, length-tabulate, length-take, list_ext, ltb, ltb→le, ltb→lt, lt→ltb,
  map, none, not, refl, replicate, set, some, splice, sub_size, suc, sym, tabulate, tabulate-add,
  tabulate-get_or, tabulate_congr, take, take-append-drop, take-length_append, take-past, true,
  window, window-front, window_cut, window_split, window_total, zero, ℕ, ◌%◌, ◌&&◌, ◌*◌, ◌++◌, ◌+◌,
  ◌-◌, ◌/◌, ◌<◌, ◌==◌, ◌^◌, ◌||◌, ◌↔◌, ◌∙◌, ◌∷◌, ◌≡◌, ◌≢◌, ◌≤◌, ◌⊎◌,
}

-- `stdout` or `stdin`, or a file that fopen has opened.
pub data Fd : Type 0 where
  standard : Fd
  opened : List ℕ → Fd

pub record Inoutfile : Type 0 where
  pub fd : Fd
  pub fd_close : Bool

-- How many blocks of the heap and how many files the process holds.
pub record Held : Type 0 where
  pub blocks : ℕ
  pub files : ℕ

-- With fopen's answer for the name, behind a successful malloc: a failure frees the block.
unfoldable pub open_named : Bool → Held → List ℕ → Option Inoutfile × Held
open_named opens h given_filename =
    if opens
    then (
      some (record { fd = opened given_filename; fd_close = true }),
      record { blocks = h.blocks + 1; files = h.files + 1 },
    )
    else (none, h)

unfoldable pub open_file :
    Bool → (List ℕ → List ℕ → Bool) → List ℕ → Held → List ℕ → Option Inoutfile × Held
open_file mallocs fopen mode h [] =
    if mallocs
    then (some (record { fd = standard; fd_close = false }), record h { blocks = h.blocks + 1 })
    else (none, h)
open_file mallocs fopen mode h (c ∷ cs) =
    if mallocs then open_named (fopen (c ∷ cs) mode) h (c ∷ cs) else (none, h)

unfoldable pub outfile_open :
    Bool → (List ℕ → List ℕ → Bool) → Held → List ℕ → Option Inoutfile × Held
outfile_open mallocs fopen h given_filename =
    open_file mallocs fopen (b'w' ∷ b'+' ∷ b'b' ∷ []) h given_filename

unfoldable pub infile_open :
    Bool → (List ℕ → List ℕ → Bool) → Held → List ℕ → Option Inoutfile × Held
infile_open mallocs fopen h given_filename =
    open_file mallocs fopen (b'r' ∷ b'b' ∷ []) h given_filename

-- The block of the structure is not freed.
unfoldable pub outfile_close : Inoutfile → Held → Held
outfile_close outfile h = if outfile.fd_close then record h { files = h.files - 1 } else h

unfoldable pub infile_close : Inoutfile → Held → Held
infile_close infile h = outfile_close infile h

-- ===== src/Files/Balance.antt =====
-- What is held behind an opening, and behind the closing.
use tani_dvr.Prelude.{
  Bool, List, Option, [], arith, false, none, refl, some, true, ℕ, ◌+◌, ◌∷◌, ◌≡◌,
}
use tani_dvr.Files.{Inoutfile, Held, open_named, open_file, outfile_close}

-- An opening fails and holds nothing, or the closing gives the file back, and keeps one block.
abbrev Balanced : Held → Option Inoutfile × Held → Type 0
Balanced h (none, h') = h' ≡ h
Balanced h (some f, h') =
    ((outfile_close f h').files ≡ h.files) × ((outfile_close f h').blocks ≡ h.blocks + 1)

open_named-Balanced :
    (opens : Bool) (h : Held) (name : List ℕ) → Balanced h (open_named opens h name)
unfolding open_named outfile_close
open_named-Balanced true h name = (omega arith, refl)
open_named-Balanced false h name = refl

-- Whatever malloc and fopen answer: an opening that fails holds no file and no block more than
-- before; behind one that succeeds, and the closing, there is no file more, and one block more.
open_file-Balanced :
    (mallocs : Bool) (fopen : List ℕ → List ℕ → Bool) (mode : List ℕ) (h : Held) (name : List ℕ)
    → Balanced h (open_file mallocs fopen mode h name)
unfolding open_file outfile_close
open_file-Balanced true fopen mode h [] = (refl, refl)
open_file-Balanced false fopen mode h [] = refl
open_file-Balanced true fopen mode h (c ∷ cs) = open_named-Balanced (fopen (c ∷ cs) mode) h (c ∷ cs)
open_file-Balanced false fopen mode h (c ∷ cs) = refl

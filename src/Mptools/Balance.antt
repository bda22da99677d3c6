-- ===== src/Mptools/Balance.antt =====
-- No descriptor is lost, and the two processes hold the opposite ends of the two pipes.
use tani_dvr.Prelude.{
  Bool, Option, ap, arith, false, if_false, none, refl, some, suc, sym, zero, ℕ, ◌==◌, ◌||◌, ◌∷◌,
  ◌≡◌, ◌≢◌,
}
use mathlib.Core.Path.{subst}
use tani_dvr.Prelude.Int.{ℤ, pos, negsuc, minus}
use tani_dvr.Convert.{is_zero}
use tani_dvr.Recording.{is_minus_one}
use tani_dvr.Mptools.{
  forked_with, second_pipe, first_pipe, mptools_create_pipedfork, Pipe, Side, close, with_pipe,
  mptools_child_close_pipedfork, mptools_destroy_pipedfork,
}

-- `pipe` gives descriptors that are not open.
abbrev pub IsNew : Pipe → (ℕ → Bool) → Type 0
IsNew (r, w) opened = (r ≢ w) × (opened r ≡ false) × (opened w ≡ false)

abbrev pub AreNew : Option Pipe → Option Pipe → Side → Type 0
AreNew none tpp2 s = Unit
AreNew (some tpp1) none s = IsNew tpp1 s.opened
AreNew (some tpp1) (some tpp2) s = IsNew tpp1 s.opened × IsNew tpp2 (with_pipe tpp1 s).opened

-- The process has the two descriptors open, and no other that it had not before; closing them gives
-- back what was open, and so does destroying the child, which is terminated and waited for.
abbrev pub Holding : Side → Side → ℕ → ℕ → ℤ → Type 0
Holding s s' r w pid =
    (s'.pipedfork.fd_read ≡ r)
    × (s'.pipedfork.fd_write ≡ w)
    × (s'.pipedfork.child_pid ≡ pid)
    × ((fd : ℕ) → s'.opened fd ≡ (fd == r || (fd == w || s.opened fd)))
    × ((fd : ℕ) → (mptools_child_close_pipedfork s').opened fd ≡ s.opened fd)
    × ((status : ℕ)
        → let gone = mptools_destroy_pipedfork status s' in
          ((fd : ℕ) → gone.opened fd ≡ s.opened fd)
          × (gone.terminated ≡ pid ∷ s.terminated)
          × (gone.waited ≡ pid ∷ s.waited))

abbrev pub Balanced : Option Pipe → Option Pipe → ℤ → Side → Side × ℤ → Type 0
Balanced none tpp2 forked s (s', ret) = (ret ≡ minus 1) × ((fd : ℕ) → s'.opened fd ≡ s.opened fd)
Balanced (some tpp1) none forked s (s', ret) =
    (ret ≡ minus 1) × ((fd : ℕ) → s'.opened fd ≡ s.opened fd)
Balanced (some (r1, w1)) (some (r2, w2)) (negsuc n) s (s', ret) =
    (n ≡ 0) × (ret ≡ minus 1) × ((fd : ℕ) → s'.opened fd ≡ s.opened fd)
Balanced (some (r1, w1)) (some (r2, w2)) (pos zero) s (s', ret) =
    (ret ≡ pos 0) × Holding s s' r2 w1 (pos 0)
Balanced (some (r1, w1)) (some (r2, w2)) (pos (suc n)) s (s', ret) =
    (ret ≡ pos (suc n)) × Holding s s' r1 w2 (pos (suc n))

-- `fork` gives -1, 0 or the number of a process.
abbrev pub IsForkAnswer : ℤ → Type 0
IsForkAnswer (pos n) = Unit
IsForkAnswer (negsuc n) = n ≡ 0

failed_second :
    (r1 w1 : ℕ) (s : Side) (fd : ℕ)
    → IsNew (r1, w1) s.opened
    → (close w1 (close r1 (with_pipe (r1, w1) s))).opened fd ≡ s.opened fd
failed_second r1 w1 s fd new =
    ground (arith, new, λ (p : fd ≡ r1). ap s.opened p, λ (p : fd ≡ w1). ap s.opened p)

closed_again :
    (s s' : Side) (r w : ℕ) (fd : ℕ)
    → (s'.opened fd ≡ (fd == r || (fd == w || s.opened fd)))
    → s.opened r ≡ false
    → s.opened w ≡ false
    → (close w (close r s')).opened fd ≡ s.opened fd
closed_again s s' r w fd e h k =
    ground (arith, e, λ (p : fd ≡ r). ap s.opened p, λ (p : fd ≡ w). ap s.opened p)

holding :
    (s s' : Side) (pid : ℤ)
    → let r = s'.pipedfork.fd_read in
      let w = s'.pipedfork.fd_write in
      (s'.pipedfork.child_pid ≡ pid)
      → (s'.terminated ≡ s.terminated)
      → (s'.waited ≡ s.waited)
      → ((fd : ℕ) → s'.opened fd ≡ (fd == r || (fd == w || s.opened fd)))
      → s.opened r ≡ false
      → s.opened w ≡ false
      → Holding s s' r w pid
unfolding mptools_child_close_pipedfork mptools_destroy_pipedfork
holding s s' pid same t wt e h k =
    let r = s'.pipedfork.fd_read in
    let w = s'.pipedfork.fd_write in
    let back = λ (fd : ℕ). closed_again s s' r w fd (e fd) h k in
    (refl, refl, same, e, back, λ status. (back, λ i. same i ∷ t i, λ i. same i ∷ wt i))

module _ (r1 w1 r2 w2 : ℕ) (s : Side) (new : IsNew (r1, w1) s.opened)
    (new' : IsNew (r2, w2) (with_pipe (r1, w1) s).opened) where
  abbrev piped : Side
  piped = with_pipe (r2, w2) (with_pipe (r1, w1) s)

  all_closed : (fd : ℕ) → (close w1 (close r1 (close w2 (close r2 piped)))).opened fd ≡ s.opened fd
  all_closed fd = ground (
    arith,
    new,
    new',
    λ (p : fd ≡ r1). ap s.opened p,
    λ (p : fd ≡ w1). ap s.opened p,
    λ (p : fd ≡ r2). ap s.opened p,
    λ (p : fd ≡ w2). ap s.opened p,
  )

  child_ends :
      (fd : ℕ) → (close w2 (close r1 piped)).opened fd ≡ (fd == r2 || (fd == w1 || s.opened fd))
  child_ends fd = ground (
    arith,
    new,
    new',
    λ (p : fd ≡ r1). ap s.opened p,
    λ (p : fd ≡ w1). ap s.opened p,
    λ (p : fd ≡ r2). ap s.opened p,
    λ (p : fd ≡ w2). ap s.opened p,
  )

  parent_ends :
      (fd : ℕ) → (close r2 (close w1 piped)).opened fd ≡ (fd == r1 || (fd == w2 || s.opened fd))
  parent_ends fd = ground (
    arith,
    new,
    new',
    λ (p : fd ≡ r1). ap s.opened p,
    λ (p : fd ≡ w1). ap s.opened p,
    λ (p : fd ≡ r2). ap s.opened p,
    λ (p : fd ≡ w2). ap s.opened p,
  )

  not_open : (s.opened r2 ≡ false) × (s.opened w2 ≡ false)
  not_open = (ground (arith, new'), ground (arith, new'))

-- For pipes of new descriptors and an answer of `fork`: where mptools_create_pipedfork returns -1,
-- the descriptors that are open are those of before. Else it returns what `fork` did, and the
-- process has two more: the child reads from the second pipe and writes to the first, the parent the
-- other way round. Closing gives back what was open before, and so does mptools_destroy_pipedfork,
-- which terminates the child and waits for it.
pub mptools_create_pipedfork-Balanced :
    (tpp1 tpp2 : Option Pipe) (forked : ℤ) (s : Side)
    → AreNew tpp1 tpp2 s
    → IsForkAnswer forked
    → Balanced tpp1 tpp2 forked s (mptools_create_pipedfork tpp1 tpp2 forked s)
unfolding mptools_create_pipedfork first_pipe second_pipe forked_with is_minus_one is_zero
mptools_create_pipedfork-Balanced none tpp2 forked s new answer = (refl, λ fd. refl)
mptools_create_pipedfork-Balanced (some (r1, w1)) none forked s new answer =
    (refl, λ fd. failed_second r1 w1 s fd new)
mptools_create_pipedfork-Balanced (some (r1, w1)) (some (r2, w2)) (negsuc zero) s (new, new')
      answer =
    (refl, refl, λ fd. all_closed r1 w1 r2 w2 s new new' fd)
mptools_create_pipedfork-Balanced (some (r1, w1)) (some (r2, w2)) (negsuc (suc n)) s new answer =
    absurd (omega (arith, answer))
mptools_create_pipedfork-Balanced (some (r1, w1)) (some (r2, w2)) (pos zero) s (new, new') answer =
    (
      refl,
      holding s _ (pos 0) refl refl refl (child_ends r1 w1 r2 w2 s new new')
          (not_open r1 w1 r2 w2 s new new').0 new.2,
    )
mptools_create_pipedfork-Balanced (some (r1, w1)) (some (r2, w2)) (pos (suc n)) s (new, new')
      answer =
    let parent : (suc n == 0) ≡ false = ground arith in
    subst (Balanced (some (r1, w1)) (some (r2, w2)) (pos (suc n)) s) (sym (if_false _ _ _ parent)) (
      refl,
      holding s _ (pos (suc n)) refl refl refl (parent_ends r1 w1 r2 w2 s new new') new.1
          (not_open r1 w1 r2 w2 s new new').1,
    )

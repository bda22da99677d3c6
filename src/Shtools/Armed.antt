-- ===== src/Shtools/Armed.antt =====
-- The state that sht_init leaves, and what a signal does in it.
use tani_dvr.Prelude.{
  ==_iff, All, Bool, Bool-cases, List, [], ap, arith, false, if_cases, if_false, if◌then◌else◌, inl,
  inr, not, refl, set, sym, true, ◌&&◌, ◌==◌, ◌||◌, ◌∙◌, ◌∷◌, ◌≡◌, ◌⊎◌,
}
use mathlib.Core.Path.{subst}
use tani_dvr.Shtools.{
  release_all, release, Signal, sigchld, sigpipe, sighup, sigterm, sigxcpu, sigill, sigfpe, sigsegv,
  sigbus, sig_ign, handled, Process, number, is_std, update, sht_handler, act, deliver,
}

-- The handler is called, and stays.
abbrev pub Handles : Process → Signal → Type 0
Handles p sn =
    ((p.actions sn).sa_handler ≡ handled) × ((p.actions sn).sa_flags.sa_resethand ≡ false)

-- Alive, SIGPIPE ignored, the others of the five handled, and no other pending.
pub record IsArmed (p : Process) : Type 0 where
  pub alive : p.ended ≡ false
  pub child : Handles p sigchld
  pub hup : Handles p sighup
  pub term : Handles p sigterm
  pub xcpu : Handles p sigxcpu
  pub pipe : (p.actions sigpipe).sa_handler ≡ sig_ign
  pub no_pipe : p.sht_fl_sigpipe ≡ false
  pub no_fatal : (sn : Signal) → is_std sn ≡ false → p.pending sn ≡ false

abbrev pub is_child : Signal → Bool
is_child sn = number sn == 17

abbrev pub asks_end : Signal → Bool
asks_end sn = number sn == 1 || (number sn == 15 || (number sn == 24))

-- What a signal of the five does in such a state.
abbrev pub note : Signal → Process → Process
note sn p = record p {
  sht_fl_sigchld = is_child sn || p.sht_fl_sigchld;
  sht_fl_terminate_nicely = asks_end sn || p.sht_fl_terminate_nicely;
}

by_handler :
    (sn : Signal) (p : Process) → p.ended ≡ false → Handles p sn → deliver sn p ≡ sht_handler sn p
unfolding deliver act
by_handler sn p alive (h, stays) =
    if_false _ _ _ alive
    ∙ (ap (λ g. act g (p.actions sn).sa_flags.sa_resethand sn p) h
        ∙ ap (λ b. act handled b sn p) stays)

pub deliver-note :
    (sn : Signal) (p : Process) → is_std sn ≡ true → IsArmed p → deliver sn p ≡ note sn p
unfolding deliver act sht_handler
deliver-note sigchld p e v = by_handler sigchld p v.alive v.child
deliver-note sigpipe p e v =
    if_false _ _ _ v.alive
    ∙ ap (λ g. act g (p.actions sigpipe).sa_flags.sa_resethand sigpipe p) v.pipe
deliver-note sighup p e v = by_handler sighup p v.alive v.hup
deliver-note sigterm p e v = by_handler sigterm p v.alive v.term
deliver-note sigxcpu p e v = by_handler sigxcpu p v.alive v.xcpu
deliver-note sigill p e v = cc
deliver-note sigfpe p e v = cc
deliver-note sigsegv p e v = cc
deliver-note sigbus p e v = cc

-- Taken from the pending ones and noted.
unfoldable pub taken : Signal → Process → Process
taken sn p = note sn (record p { pending = update p.pending sn false })

pub update-false : (f : Signal → Bool) (sn s : Signal) → f s ≡ false → update f sn false s ≡ false
update-false f sn s e = if_cases (λ b. b ≡ false) (number s == number sn) (λ _. refl) (λ _. e)

taken-IsArmed : (sn : Signal) (p : Process) → IsArmed p → IsArmed (taken sn p)
unfolding taken
taken-IsArmed sn p v = record {
  alive = v.alive;
  child = v.child;
  hup = v.hup;
  term = v.term;
  xcpu = v.xcpu;
  pipe = v.pipe;
  no_pipe = v.no_pipe;
  no_fatal = λ s e. update-false p.pending sn s (v.no_fatal s e);
}

-- It is pending and nothing holds it back.
abbrev pub waits : Signal → Process → Bool
waits sn p = p.pending sn && not (p.blocked sn)

abbrev pub flag : Signal → Process → Bool
flag sn p = if is_child sn then p.sht_fl_sigchld else p.sht_fl_terminate_nicely

-- The signals that have a flag.
abbrev pub IsHandled : Signal → Type 0
IsHandled sn = (is_child sn || asks_end sn) ≡ true

-- Its flag is set, or it is still pending.
abbrev pub Noted : Signal → Process → Type 0
Noted sn p = (flag sn p ≡ true) ⊎ (p.pending sn ≡ true)

pub record Kept (p p' : Process) : Type 0 where
  pub armed : IsArmed p'
  pub mask : p'.blocked ≡ p.blocked
  pub noted : (s : Signal) → IsHandled s → Noted s p → Noted s p'
  pub settled : (s : Signal) → waits s p ≡ false → waits s p' ≡ false

pub Kept-refl : (p : Process) → IsArmed p → Kept p p
Kept-refl p v = record { armed = v; mask = refl; noted = λ s h n. n; settled = λ s w. w }

pub Kept-trans : (p q r : Process) → Kept p q → Kept q r → Kept p r
Kept-trans p q r k l = record {
  armed = l.armed;
  mask = l.mask ∙ k.mask;
  noted = λ s h n. l.noted s h (k.noted s h n);
  settled = λ s w. l.settled s (k.settled s w);
}

taken-Noted : (s sn : Signal) (p : Process) → IsHandled s → Noted s p → Noted s (taken sn p)
unfolding taken
taken-Noted s sn p h (inl set) = inl (ground (arith, set))
taken-Noted s sn p h (inr pending) = elim (Bool-cases (number s == number sn)) [
  | inl same ↦
      let e : number s ≡ number sn = (==_iff (number s) (number sn)).0 same in
      inl (ground (arith, e, h))
  | inr other ↦ inr (if_false _ _ _ other ∙ pending)
]

taken-settled : (s sn : Signal) (p : Process) → waits s p ≡ false → waits s (taken sn p) ≡ false
unfolding taken
taken-settled s sn p w =
    if_cases (λ b. (b && not (p.blocked s)) ≡ false) (number s == number sn) (λ _. refl) (λ _. w)

taken-Kept : (sn : Signal) (p : Process) → IsArmed p → Kept p (taken sn p)
unfolding taken
taken-Kept sn p v = record {
  armed = taken-IsArmed sn p v;
  mask = refl;
  noted = λ s h n. taken-Noted s sn p h n;
  settled = λ s w. taken-settled s sn p w;
}

own_settled : (sn : Signal) (p : Process) → waits sn (taken sn p) ≡ false
unfolding taken
own_settled sn p =
    let same : (number sn == number sn) ≡ true = (==_iff (number sn) (number sn)).1 refl in
    ap (λ b. (if b then false else p.pending sn) && not (p.blocked sn)) same

released :
    (sn : Signal) (p : Process) → IsArmed p → release sn p ≡ (if waits sn p then taken sn p else p)
unfolding release taken
released sn p v = elim (Bool-cases (is_std sn)) [
  | inl std ↦
      let q = record p { pending = update p.pending sn false } in
      let armed : IsArmed q = record {
        alive = v.alive;
        child = v.child;
        hup = v.hup;
        term = v.term;
        xcpu = v.xcpu;
        pipe = v.pipe;
        no_pipe = v.no_pipe;
        no_fatal = λ s e. update-false p.pending sn s (v.no_fatal s e);
      } in
      ap (λ (x : Process). if waits sn p then x else p) (deliver-note sn q std armed)
  | inr fatal ↦
      let none_waits : waits sn p ≡ false =
        ap (λ b. b && not (p.blocked sn)) (v.no_fatal sn fatal) in
      if_false _ _ _ none_waits ∙ sym (if_false _ _ _ none_waits)
]

release-Kept :
    (sn : Signal) (p : Process)
    → IsArmed p
    → Kept p (release sn p) × (waits sn (release sn p) ≡ false)
release-Kept sn p v =
    subst (λ x. Kept p x × (waits sn x ≡ false)) (sym (released sn p v))
      (if_cases (λ x. Kept p x × (waits sn x ≡ false)) (waits sn p)
        (λ _. (taken-Kept sn p v, own_settled sn p)) (λ w. (Kept-refl p v, w)))

pub release_all-Kept :
    (sns : List Signal) (p : Process)
    → IsArmed p
    → Kept p (release_all sns p) × All (λ sn. waits sn (release_all sns p) ≡ false) sns
unfolding release_all
release_all-Kept [] p v = (Kept-refl p v, tt)
release_all-Kept (sn ∷ sns) p v =
    let (first, own) = release-Kept sn p v in
    let (later, others) = release_all-Kept sns (release sn p) first.armed in
    (
      Kept-trans p (release sn p) (release_all sns (release sn p)) first later,
      (later.settled sn own, others),
    )

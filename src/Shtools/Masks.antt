-- ===== src/Shtools/Masks.antt =====
-- Changes of the mask, and that signals with the same number are the same.
use tani_dvr.Prelude.{
  ==_iff, All, Bool, List, [], ap, false, if_false, if◌then◌else◌, refl, sym, true, ℕ, ◌==◌, ◌∙◌,
  ◌∷◌, ◌≡◌,
}
use tani_dvr.Shtools.{
  Signal, sigchld, sigpipe, sighup, sigterm, sigxcpu, sigill, sigfpe, sigsegv, sigbus, Process,
  number, release, release_all, all_signals, mask_of, sht_signalblock_mgr,
}
use tani_dvr.Shtools.Armed.{IsArmed, Noted, IsHandled, waits, release_all-Kept}

pub record Watches (p : Process) : Type 0 where
  pub armed : IsArmed p
  pub settled : (s : Signal) → waits s p ≡ false

pub release_all-still :
    (sns : List Signal) (p : Process) → ((sn : Signal) → waits sn p ≡ false) → release_all sns p ≡ p
unfolding release_all release
release_all-still [] p w = refl
release_all-still (sn ∷ sns) p w =
    ap (release_all sns) (if_false _ _ _ (w sn)) ∙ release_all-still sns p w

every : (P : Signal → Type 0) → All P all_signals → (sn : Signal) → P sn
every P (chld, (pipe, (hup, (term, (xcpu, (ill, (fpe, (segv, (bus, _))))))))) sigchld = chld
every P (chld, (pipe, (hup, (term, (xcpu, (ill, (fpe, (segv, (bus, _))))))))) sigpipe = pipe
every P (chld, (pipe, (hup, (term, (xcpu, (ill, (fpe, (segv, (bus, _))))))))) sighup = hup
every P (chld, (pipe, (hup, (term, (xcpu, (ill, (fpe, (segv, (bus, _))))))))) sigterm = term
every P (chld, (pipe, (hup, (term, (xcpu, (ill, (fpe, (segv, (bus, _))))))))) sigxcpu = xcpu
every P (chld, (pipe, (hup, (term, (xcpu, (ill, (fpe, (segv, (bus, _))))))))) sigill = ill
every P (chld, (pipe, (hup, (term, (xcpu, (ill, (fpe, (segv, (bus, _))))))))) sigfpe = fpe
every P (chld, (pipe, (hup, (term, (xcpu, (ill, (fpe, (segv, (bus, _))))))))) sigsegv = segv
every P (chld, (pipe, (hup, (term, (xcpu, (ill, (fpe, (segv, (bus, _))))))))) sigbus = bus

of_number : ℕ → Signal
of_number n =
    if n == 17
    then sigchld
    else if n == 13
    then sigpipe
    else if n == 1
    then sighup
    else if n == 15
    then sigterm
    else if n == 24
    then sigxcpu
    else if n == 4
    then sigill
    else if n == 8
    then sigfpe
    else if n == 11
    then sigsegv
    else sigbus

of_number-number : (sn : Signal) → of_number (number sn) ≡ sn
unfolding of_number
of_number-number sigchld = refl
of_number-number sigpipe = refl
of_number-number sighup = refl
of_number-number sigterm = refl
of_number-number sigxcpu = refl
of_number-number sigill = refl
of_number-number sigfpe = refl
of_number-number sigsegv = refl
of_number-number sigbus = refl

pub number_inj : (s sn : Signal) → (number s == number sn) ≡ true → s ≡ sn
number_inj s sn e =
    sym (of_number-number s)
    ∙ (ap of_number ((==_iff (number s) (number sn)).0 e) ∙ of_number-number sn)

-- A change of the mask.
pub masked-Kept :
    (block std fatal : Bool) (p : Process)
    → IsArmed p
    → IsArmed (sht_signalblock_mgr block std fatal p)
      × ((s : Signal) → waits s (sht_signalblock_mgr block std fatal p) ≡ false)
      × ((s : Signal) → IsHandled s → Noted s p → Noted s (sht_signalblock_mgr block std fatal p))
unfolding sht_signalblock_mgr
masked-Kept block std fatal p v =
    let q = record p { blocked = λ sn. if mask_of std fatal sn then block else p.blocked sn } in
    let armed : IsArmed q = record {
      alive = v.alive;
      child = v.child;
      hup = v.hup;
      term = v.term;
      xcpu = v.xcpu;
      pipe = v.pipe;
      no_pipe = v.no_pipe;
      no_fatal = v.no_fatal;
    } in
    let (kept, all) = release_all-Kept all_signals q armed in
    (
      kept.armed,
      every (λ sn. waits sn (release_all all_signals q) ≡ false) all,
      λ s h n. kept.noted s h n,
    )

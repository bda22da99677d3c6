-- ===== src/Shtools/Trace.antt =====
-- What a process has noted behind any signals and changes of the mask.
use tani_dvr.Prelude.{
  ==_iff, All, Bool, Bool-cases, List, [], ap, arith, false, if_cases, if_false, if_true, inl, inr,
  not, refl, set, sym, true, ◌&&◌, ◌==◌, ◌∙◌, ◌∷◌, ◌≡◌, ◌⊎◌,
}
use mathlib.Core.Path.{subst}
use mathlib.Core.Bool.{and-false}
use tani_dvr.Shtools.{
  Signal, ShtContext, Process, number, is_std, update, arrive, sht_signalblock_mgr, sht_init,
}
use tani_dvr.Shtools.Armed.{IsArmed, Noted, IsHandled, waits, flag, note, deliver-note}
use tani_dvr.Shtools.Masks.{Watches, number_inj, masked-Kept}
use tani_dvr.Shtools.Init.{IsPolite, begins}

-- A signal comes, or sht_signalblock_mgr is called.
pub data Event : Type 0 where
  comes : Signal → Event
  masks : Bool → Bool → Bool → Event

unfoldable pub step : Event → Process → Process
step (comes sn) p = arrive sn p
step (masks block std fatal) p = sht_signalblock_mgr block std fatal p

unfoldable pub run_events : List Event → Process → Process
run_events [] p = p
run_events (e ∷ es) p = run_events es (step e p)

-- No signal of a software failure.
abbrev pub IsStdEvent : Event → Type 0
IsStdEvent (comes sn) = is_std sn ≡ true
IsStdEvent (masks block std fatal) = Unit

abbrev pub Came : Signal → List Event → Type 0
Came s [] = ⊥
Came s (comes sn ∷ es) = (s ≡ sn) ⊎ Came s es
Came s (masks block std fatal ∷ es) = Came s es

note-IsArmed : (sn : Signal) (p : Process) → IsArmed p → IsArmed (note sn p)
note-IsArmed sn p v = record {
  alive = v.alive;
  child = v.child;
  hup = v.hup;
  term = v.term;
  xcpu = v.xcpu;
  pipe = v.pipe;
  no_pipe = v.no_pipe;
  no_fatal = v.no_fatal;
}

note-flag : (s sn : Signal) (p : Process) → flag s p ≡ true → flag s (note sn p) ≡ true
note-flag s sn p set = ground (arith, set)

own_flag : (sn : Signal) (p : Process) → IsHandled sn → flag sn (note sn p) ≡ true
own_flag sn p h = ground (arith, h)

-- A signal of the five comes.
arrived :
    (sn : Signal) (p : Process)
    → is_std sn ≡ true
    → Watches p
    → Watches (arrive sn p)
      × ((s : Signal) → IsHandled s → Noted s p → Noted s (arrive sn p))
      × (IsHandled sn → Noted sn (arrive sn p))
unfolding arrive
arrived sn p std v =
    let P : Process → Type 0 = λ q.
      Watches q
      × ((s : Signal) → IsHandled s → Noted s p → Noted s q)
      × (IsHandled sn → Noted sn q) in
    if_cases P (p.blocked sn)
      (λ held.
        let q = record p { pending = update p.pending sn true } in
        (
          record {
            armed = record {
              alive = v.armed.alive;
              child = v.armed.child;
              hup = v.armed.hup;
              term = v.armed.term;
              xcpu = v.armed.xcpu;
              pipe = v.armed.pipe;
              no_pipe = v.armed.no_pipe;
              no_fatal = λ s e. elim (Bool-cases (number s == number sn)) [
                | inl same ↦ absurd (ground (arith, ap is_std (number_inj s sn same), e, std))
                | inr other ↦ if_false _ _ _ other ∙ v.armed.no_fatal s e
              ];
            };
            settled = λ s. elim (Bool-cases (number s == number sn)) [
              | inl same ↦
                  ap (λ x. update p.pending sn true s && not (p.blocked x)) (number_inj s sn same)
                  ∙ (ap (λ b. update p.pending sn true s && not b) held
                      ∙ and-false (update p.pending sn true s))
              | inr other ↦ ap (λ b. b && not (p.blocked s)) (if_false _ _ _ other) ∙ v.settled s
            ];
          },
          λ s h n. elim n [
            | inl set ↦ inl set
            | inr pending ↦
                inr (if_cases (λ b. b ≡ true) (number s == number sn) (λ _. refl) (λ _. pending))
          ],
          λ h. inr (if_true _ _ _ ((==_iff (number sn) (number sn)).1 refl)),
        ))
      (λ free. subst P (sym (deliver-note sn p std v.armed)) (
        record { armed = note-IsArmed sn p v.armed; settled = v.settled },
        λ s h n. elim n [ inl set ↦ inl (note-flag s sn p set) | inr pending ↦ inr pending ],
        λ h. inl (own_flag sn p h),
      ))

step-Watches :
    (e : Event) (p : Process)
    → IsStdEvent e
    → Watches p
    → Watches (step e p) × ((s : Signal) → IsHandled s → Noted s p → Noted s (step e p))
unfolding step
step-Watches (comes sn) p std v = let (w, kept, own) = arrived sn p std v in (w, kept)
step-Watches (masks block std fatal) p tt' v =
    let (armed, settled, noted) = masked-Kept block std fatal p v.armed in
    (record { armed = armed; settled = settled }, noted)

run-Watches :
    (es : List Event) (p : Process)
    → All IsStdEvent es
    → Watches p
    → Watches (run_events es p)
      × ((s : Signal) → IsHandled s → Noted s p → Noted s (run_events es p))
unfolding run_events
run-Watches [] p a v = (v, λ s h n. n)
run-Watches (e ∷ es) p (std, a) v =
    let (w, kept) = step-Watches e p std v in
    let (w', kept') = run-Watches es (step e p) a w in (w', λ s h n. kept' s h (kept s h n))

run-Came :
    (es : List Event) (p : Process) (s : Signal)
    → All IsStdEvent es
    → Watches p
    → IsHandled s
    → Came s es
    → Noted s (run_events es p)
unfolding run_events step
run-Came [] p s a v h came = elim came [ ]
run-Came (comes sn ∷ es) p s (std, a) v h (inl same) =
    let (w, kept, own) = arrived sn p std v in
    (run-Watches es (arrive sn p) a w).1 s h
      (subst (λ x. Noted x (arrive sn p)) (sym same) (own (subst IsHandled same h)))
run-Came (comes sn ∷ es) p s (std, a) v h (inr later) =
    run-Came es (arrive sn p) s a (arrived sn p std v).0 h later
run-Came (masks block std fatal ∷ es) p s (std', a) v h later =
    let (armed, settled, noted) = masked-Kept block std fatal p v.armed in
    run-Came es (sht_signalblock_mgr block std fatal p) s a
      (record { armed = armed; settled = settled }) h later

held_back :
    (s : Signal) (p : Process)
    → waits s p ≡ false
    → Noted s p
    → (flag s p ≡ true) ⊎ ((p.pending s ≡ true) × (p.blocked s ≡ true))
held_back s p w (inl set) = inl set
held_back s p w (inr pending) = inr (pending, ground (arith, w, pending))

-- From sht_init on, in the context of the base or the buffer process, from any earlier settings and
-- with no signal of a software failure pending: whatever signals of the five managed ones come, and
-- however sht_signalblock_mgr is called meanwhile, the process does not end, and sht_fl_sigpipe
-- stays 0. A SIGCHLD, SIGTERM, SIGHUP or SIGXCPU that came is not lost: its flag is set, or it is
-- blocked and pending.
pub sht_init-notes :
    (ctx : ShtContext) (p : Process) (es : List Event)
    → IsPolite ctx
    → p.ended ≡ false
    → ((sn : Signal) → is_std sn ≡ false → p.pending sn ≡ false)
    → All IsStdEvent es
    → let q = run_events es (sht_init ctx p) in
      (q.ended ≡ false)
      × (q.sht_fl_sigpipe ≡ false)
      × ((s : Signal)
          → IsHandled s
          → Came s es
          → (flag s q ≡ true) ⊎ ((q.pending s ≡ true) × (q.blocked s ≡ true)))
sht_init-notes ctx p es polite alive calm a =
    let start = begins ctx p polite alive calm in
    let (w, kept) = run-Watches es (sht_init ctx p) a start in
    (
      w.armed.alive,
      w.armed.no_pipe,
      λ s h came.
          held_back s (run_events es (sht_init ctx p)) (w.settled s)
            (run-Came es (sht_init ctx p) s a start h came),
    )

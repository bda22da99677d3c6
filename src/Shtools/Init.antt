-- ===== src/Shtools/Init.antt =====
-- What sht_init leaves, whether it is called for the first time or again.
use tani_dvr.Prelude.{
  Bool, Bool-cases, ap, false, if_cases, if◌then◌else◌, inl, inr, not, refl, sym, true, ◌&&◌, ◌∙◌,
  ◌≡◌,
}
use mathlib.Core.Path.{subst}
use mathlib.Core.Bool.{and-false}
use tani_dvr.Shtools.{
  Signal, handled, ShtContext, sht_base_proc, sht_buffer_proc, sht_dvrctl_proc, Process, is_std,
  all_signals, mask_of, sht_signalblock_mgr, set_handled, set_ignored, set_fatal,
  sht_set_sighandlers, handled_action, ignored_action, prepare_actions, reset_flags, sht_init,
}
use tani_dvr.Shtools.Armed.{IsArmed}
use tani_dvr.Shtools.Masks.{Watches, release_all-still, masked-Kept}

-- The processes that write and buffer, not the one that talks to the DVR.
abbrev pub IsPolite : ShtContext → Type 0
IsPolite sht_base_proc = Unit
IsPolite sht_buffer_proc = Unit
IsPolite sht_dvrctl_proc = ⊥

polite_action :
    (ctx : ShtContext)
    → IsPolite ctx
    → ((handled_action ctx).sa_handler ≡ handled)
      × ((handled_action ctx).sa_flags.sa_resethand ≡ false)
unfolding handled_action
polite_action sht_base_proc polite = (refl, refl)
polite_action sht_buffer_proc polite = (refl, refl)
polite_action sht_dvrctl_proc polite = elim polite [ ]

armed_by : Bool → ShtContext → Process → Process
armed_by b ctx p =
    record (sht_set_sighandlers
      (prepare_actions ctx (reset_flags (record p { sht_initialized_once = b })))) {
        sht_initialized_once = true;
      }

-- Behind sht_set_sighandlers, whether it is called for the first time or again.
handlers-IsArmed :
    (b : Bool) (ctx : ShtContext) (p : Process)
    → IsPolite ctx
    → p.ended ≡ false
    → ((sn : Signal) → is_std sn ≡ false → p.pending sn ≡ false)
    → IsArmed (armed_by b ctx p)
unfolding armed_by sht_set_sighandlers prepare_actions reset_flags set_handled set_ignored set_fatal
    ignored_action
handlers-IsArmed true ctx p polite alive calm = record {
  alive = alive;
  child = polite_action ctx polite;
  hup = polite_action ctx polite;
  term = polite_action ctx polite;
  xcpu = polite_action ctx polite;
  pipe = refl;
  no_pipe = refl;
  no_fatal = calm;
}
handlers-IsArmed false ctx p polite alive calm = record {
  alive = alive;
  child = polite_action ctx polite;
  hup = polite_action ctx polite;
  term = polite_action ctx polite;
  xcpu = polite_action ctx polite;
  pipe = refl;
  no_pipe = refl;
  no_fatal = calm;
}

all_held : Process → Process
all_held p = record p { blocked = λ sn. if mask_of true true sn then true else p.blocked sn }

block-all : (p : Process) → sht_signalblock_mgr true true true p ≡ all_held p
unfolding sht_signalblock_mgr all_held mask_of
block-all p = release_all-still all_signals (all_held p) (λ sn.
    let both : mask_of true true sn ≡ true =
      if_cases (λ b. b ≡ true) (is_std sn) (λ _. refl) (λ _. refl) in
    ap (λ b. p.pending sn && not (if b then true else p.blocked sn)) both
    ∙ and-false (p.pending sn))

-- All but the fatal ones are blocked, and nothing was delivered.
prepared : ShtContext → Process → Process
prepared ctx p = record p {
  blocked = λ sn. if mask_of false true sn then false else (all_held p).blocked sn;
  sht_context = ctx;
}

unblock-fatal :
    (ctx : ShtContext) (p : Process)
    → ((sn : Signal) → is_std sn ≡ false → p.pending sn ≡ false)
    → sht_signalblock_mgr false false true (record (all_held p) { sht_context = ctx })
      ≡ prepared ctx p
unfolding sht_signalblock_mgr all_held mask_of prepared
unblock-fatal ctx p calm = release_all-still all_signals (prepared ctx p) (λ sn.
    elim (Bool-cases (is_std sn)) [
      | inl std ↦
          ap
            (λ b.
              p.pending sn
              && not (
                  if (if b then false else true)
                  then false
                  else if (if b then true else true)
                  then true
                  else p.blocked sn))
            std
          ∙ and-false (p.pending sn)
      | inr fatal ↦ ap (λ b. b && not ((prepared ctx p).blocked sn)) (calm sn fatal)
    ])

sht_init-prepared :
    (ctx : ShtContext) (p : Process)
    → ((sn : Signal) → is_std sn ≡ false → p.pending sn ≡ false)
    → sht_init ctx p
      ≡ sht_signalblock_mgr false true false (armed_by p.sht_initialized_once ctx (prepared ctx p))
unfolding sht_init armed_by prepared
sht_init-prepared ctx p calm =
    let armed = λ (q : Process).
      sht_signalblock_mgr false true false
        (record (sht_set_sighandlers (prepare_actions ctx (reset_flags q))) {
          sht_initialized_once = true;
        }) in
    ap (λ q. armed (sht_signalblock_mgr false false true (record q { sht_context = ctx })))
      (block-all p)
    ∙ ap armed (unblock-fatal ctx p calm)

pub begins :
    (ctx : ShtContext) (p : Process)
    → IsPolite ctx
    → p.ended ≡ false
    → ((sn : Signal) → is_std sn ≡ false → p.pending sn ≡ false)
    → Watches (sht_init ctx p)
unfolding prepared
begins ctx p polite alive calm =
    let q = armed_by p.sht_initialized_once ctx (prepared ctx p) in
    let (armed, settled, noted) =
      masked-Kept false true false q
        (handlers-IsArmed p.sht_initialized_once ctx (prepared ctx p) polite alive calm) in
    subst Watches (sym (sht_init-prepared ctx p calm)) (record { armed = armed; settled = settled })

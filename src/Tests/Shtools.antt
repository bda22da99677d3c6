-- ===== src/Tests/Shtools.antt =====
-- The theorem on the signals, at four events.
use tani_dvr.Prelude.{List, [], false, refl, true, ◌∷◌, ◌≡◌, ◌⊎◌}
use tani_dvr.Shtools.{
  Signal, sigchld, sigpipe, sigterm, sig_dfl, Sigaction, sht_base_proc, sht_buffer_proc, Process,
  no_signals, sht_init,
}
use tani_dvr.Shtools.Armed.{IsHandled, flag}
use tani_dvr.Shtools.Trace.{Event, comes, masks, run_events, Came, sht_init-notes}

abbrev plain : Sigaction
plain = record {
  sa_handler = sig_dfl;
  sa_mask = no_signals;
  sa_flags = record { sa_restart = false; sa_resethand = false; sa_nodefer = false };
}

-- A process that has just started.
abbrev started : Process
started = record {
  actions = λ sn. plain;
  blocked = no_signals;
  pending = no_signals;
  ended = false;
  sht_fl_sigchld = false;
  sht_fl_sigpipe = false;
  sht_fl_terminate_nicely = false;
  sht_sa = plain;
  sht_sa_fatal = plain;
  sht_sa_ignored = plain;
  sht_sa_tmp = plain;
  sht_sa_fatal_tmp = plain;
  sht_sa_ignored_tmp = plain;
  sht_context = sht_base_proc;
  sht_initialized_once = false;
}

-- SIGCHLD, then SIGTERM and SIGPIPE while they are blocked.
abbrev events : List Event
events = comes sigchld ∷ masks true true false ∷ comes sigterm ∷ comes sigpipe ∷ []

sht_init-notes_example :
    let q = run_events events (sht_init sht_buffer_proc started) in
    (q.ended ≡ false)
    × (q.sht_fl_sigpipe ≡ false)
    × ((s : Signal)
        → IsHandled s
        → Came s events
        → (flag s q ≡ true) ⊎ ((q.pending s ≡ true) × (q.blocked s ≡ true)))
sht_init-notes_example =
    sht_init-notes sht_buffer_proc started events tt refl (λ sn e. refl)
      (refl, (tt, (refl, (refl, tt))))

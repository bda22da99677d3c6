-- ===== src/Shtools.antt =====
-- src/shtools.h and src/shtools.c: which signals a process handles, over `sigaction`, `sigprocmask` and
-- the delivery of signals as POSIX states them. A handler runs whole; what it logs is left out.
pub mod Armed
pub mod Masks
pub mod Init
pub mod Trace
use tani_dvr.Prelude.{
  ==_iff, All, All-append, All-get_or, All-split, Bool, Bool-cases, List, Option, [], add-one, ap,
  append-nil, append_assoc, append_inj, arith, dec_lt, drop, drop-drop, drop-length_append,
  drop-past, false, flatten, get_or, get_or-append, get_or-cons, get_or-past, get_or-set,
  get_or-splice, get_or-splice_in, get_or-splice_out, get_or-tabulate, if_cases, if_false, if_true,
  if◌then◌else◌, inl, inr, leb, leb→le, length, length-append, length-drop, length-replicate,
  length-set, length-splice, length-tabulate, length-take, list_ext, ltb, ltb→le, ltb→lt, lt→ltb,
  map, none, not, refl, replicate, set, some, splice, sub_size, suc, sym, tabulate, tabulate-add,
  tabulate-get_or, tabulate_congr, take, take-append-drop, take-length_append, take-past, true,
  window, window-front, window_cut, window_split, window_total, zero, ℕ, ◌%◌, ◌&&◌, ◌*◌, ◌++◌, ◌+◌,
  ◌-◌, ◌/◌, ◌<◌, ◌==◌, ◌^◌, ◌||◌, ◌↔◌, ◌∙◌, ◌∷◌, ◌≡◌, ◌≢◌, ◌≤◌, ◌⊎◌,
}

pub data Signal : Type 0 where
  sigchld sigpipe sighup sigterm sigxcpu sigill sigfpe sigsegv sigbus : Signal

pub data Handler : Type 0 where
  sig_dfl sig_ign handled : Handler

-- The bits of `sa_flags` that are used.
pub record SaFlags : Type 0 where
  pub sa_restart : Bool
  pub sa_resethand : Bool
  pub sa_nodefer : Bool

pub record Sigaction : Type 0 where
  pub sa_handler : Handler
  pub sa_mask : Signal → Bool
  pub sa_flags : SaFlags

pub data ShtContext : Type 0 where
  sht_base_proc sht_buffer_proc sht_dvrctl_proc : ShtContext

-- The table, the mask and the pending signals of the process, whether it has ended, and the static
-- variables.
pub record Process : Type 0 where
  pub actions : Signal → Sigaction
  pub blocked : Signal → Bool
  pub pending : Signal → Bool
  pub ended : Bool
  pub sht_fl_sigchld : Bool
  pub sht_fl_sigpipe : Bool
  pub sht_fl_terminate_nicely : Bool
  pub sht_sa : Sigaction
  pub sht_sa_fatal : Sigaction
  pub sht_sa_ignored : Sigaction
  pub sht_sa_tmp : Sigaction
  pub sht_sa_fatal_tmp : Sigaction
  pub sht_sa_ignored_tmp : Sigaction
  pub sht_context : ShtContext
  pub sht_initialized_once : Bool

abbrev pub number : Signal → ℕ
number sigchld = 17
number sigpipe = 13
number sighup = 1
number sigterm = 15
number sigxcpu = 24
number sigill = 4
number sigfpe = 8
number sigsegv = 11
number sigbus = 7

-- `SHT_F_SIGBLOCK_SIGSTD` and `SHT_F_SIGBLOCK_SIGFATAL` as sets.
abbrev pub is_std : Signal → Bool
is_std sn =
    number sn == 17
    || (number sn == 13 || (number sn == 1 || (number sn == 15 || (number sn == 24))))

abbrev pub no_signals : Signal → Bool
no_signals sn = false

abbrev pub update {ℓ} : {A : Type ℓ} → (Signal → A) → Signal → A → Signal → A
update f sn a s = if number s == number sn then a else f s

unfoldable pub sht_handler : Signal → Process → Process
sht_handler sigchld p = record p { sht_fl_sigchld = true }
sht_handler sigpipe p = record p { sht_fl_sigpipe = true }
sht_handler sigterm p = record p { sht_fl_terminate_nicely = true }
sht_handler sighup p = record p { sht_fl_terminate_nicely = true }
sht_handler sigxcpu p = record p { sht_fl_terminate_nicely = true }
sht_handler sigill p = record p { ended = true }
sht_handler sigfpe p = record p { ended = true }
sht_handler sigsegv p = record p { ended = true }
sht_handler sigbus p = record p { ended = true }

-- The default is to end the process, but for SIGCHLD.
unfoldable pub by_default : Signal → Process → Process
by_default sigchld p = p
by_default sigpipe p = record p { ended = true }
by_default sighup p = record p { ended = true }
by_default sigterm p = record p { ended = true }
by_default sigxcpu p = record p { ended = true }
by_default sigill p = record p { ended = true }
by_default sigfpe p = record p { ended = true }
by_default sigsegv p = record p { ended = true }
by_default sigbus p = record p { ended = true }

unfoldable pub act : Handler → Bool → Signal → Process → Process
act sig_dfl resets sn p = by_default sn p
act sig_ign resets sn p = p
act handled resets sn p = sht_handler sn (
    if resets
    then record p { actions = update p.actions sn (record (p.actions sn) { sa_handler = sig_dfl }) }
    else p)

-- A signal is delivered.
unfoldable pub deliver : Signal → Process → Process
deliver sn p =
    if p.ended then p else act (p.actions sn).sa_handler (p.actions sn).sa_flags.sa_resethand sn p

-- A signal comes.
unfoldable pub arrive : Signal → Process → Process
arrive sn p = if p.blocked sn then record p { pending = update p.pending sn true } else deliver sn p

-- Behind a change of the mask: what is pending and no longer blocked is delivered.
unfoldable pub release : Signal → Process → Process
release sn p =
    if p.pending sn && not (p.blocked sn)
    then deliver sn (record p { pending = update p.pending sn false })
    else p

abbrev pub all_signals : List Signal
all_signals =
    sigchld ∷ sigpipe ∷ sighup ∷ sigterm ∷ sigxcpu ∷ sigill ∷ sigfpe ∷ sigsegv ∷ sigbus ∷ []

unfoldable pub release_all : List Signal → Process → Process
release_all [] p = p
release_all (sn ∷ sns) p = release_all sns (release sn p)

-- `bmask`, with the two bits of `sf`.
unfoldable pub mask_of : Bool → Bool → Signal → Bool
mask_of std fatal sn = if is_std sn then std else fatal

unfoldable pub sht_signalblock_mgr : Bool → Bool → Bool → Process → Process
sht_signalblock_mgr block std fatal p =
    release_all all_signals
      (record p { blocked = λ sn. if mask_of std fatal sn then block else p.blocked sn })

-- The three kinds of `sigaction` calls in sht_set_sighandlers: at first from the variable and without
-- a place for the old action, later from the one that ends in `_tmp`.
unfoldable pub set_handled : Signal → Process → Process
set_handled sn p =
    if p.sht_initialized_once
    then record p { actions = update p.actions sn p.sht_sa_tmp; sht_sa = p.actions sn }
    else record p { actions = update p.actions sn p.sht_sa }

unfoldable pub set_ignored : Signal → Process → Process
set_ignored sn p =
    if p.sht_initialized_once
    then record p {
      actions = update p.actions sn p.sht_sa_ignored_tmp;
      sht_sa_ignored = p.actions sn;
    }
    else record p { actions = update p.actions sn p.sht_sa_ignored }

unfoldable pub set_fatal : Signal → Process → Process
set_fatal sn p =
    if p.sht_initialized_once
    then record p { actions = update p.actions sn p.sht_sa_fatal_tmp; sht_sa_fatal = p.actions sn }
    else record p { actions = update p.actions sn p.sht_sa_fatal }

unfoldable pub sht_set_sighandlers : Process → Process
sht_set_sighandlers p = set_fatal sigbus (
    set_fatal sigsegv (
      set_fatal sigfpe (
        set_fatal sigill (
          set_handled sigxcpu (
            set_handled sigterm
              (set_handled sighup (set_ignored sigpipe (set_handled sigchld p))))))))

-- The actions that sht_init prepares, by the context.
unfoldable pub handled_action : ShtContext → Sigaction
handled_action sht_base_proc = record {
  sa_handler = handled;
  sa_mask = no_signals;
  sa_flags = record { sa_restart = false; sa_resethand = false; sa_nodefer = false };
}
handled_action sht_buffer_proc = record {
  sa_handler = handled;
  sa_mask = no_signals;
  sa_flags = record { sa_restart = false; sa_resethand = false; sa_nodefer = false };
}
handled_action sht_dvrctl_proc = record {
  sa_handler = sig_dfl;
  sa_mask = no_signals;
  sa_flags = record { sa_restart = true; sa_resethand = false; sa_nodefer = false };
}

unfoldable pub fatal_action : Sigaction
fatal_action = record {
  sa_handler = handled;
  sa_mask = is_std;
  sa_flags = record { sa_restart = false; sa_resethand = true; sa_nodefer = true };
}

unfoldable pub ignored_action : Sigaction
ignored_action = record {
  sa_handler = sig_ign;
  sa_mask = no_signals;
  sa_flags = record { sa_restart = false; sa_resethand = false; sa_nodefer = false };
}

unfoldable pub prepare_actions : ShtContext → Process → Process
prepare_actions ctx p =
    if p.sht_initialized_once
    then record p {
      sht_sa_tmp = handled_action ctx;
      sht_sa_fatal_tmp = fatal_action;
      sht_sa_ignored_tmp = ignored_action;
    }
    else record p {
      sht_sa = handled_action ctx;
      sht_sa_fatal = fatal_action;
      sht_sa_ignored = ignored_action;
    }

unfoldable pub reset_flags : Process → Process
reset_flags p = record p {
  sht_fl_sigchld = false;
  sht_fl_sigpipe = false;
  sht_fl_terminate_nicely = false;
}

unfoldable pub sht_init : ShtContext → Process → Process
sht_init ctx p =
    let masked = sht_signalblock_mgr true true true p in
    let in_context = record masked { sht_context = ctx } in
    let reset = reset_flags (sht_signalblock_mgr false false true in_context) in
    let armed = sht_set_sighandlers (prepare_actions ctx reset) in
    sht_signalblock_mgr false true false (record armed { sht_initialized_once = true })

-- ===== src/Tests/Mptools.antt =====
-- The theorem on the pipes and the fork, in the parent.
use tani_dvr.Prelude.{[], arith, ltb, refl, some}
use tani_dvr.Prelude.Int.{pos}
use tani_dvr.Mptools.{Side, mptools_create_pipedfork}
use tani_dvr.Mptools.Balance.{Balanced, mptools_create_pipedfork-Balanced}

abbrev standard_streams : Side
standard_streams = record {
  opened = λ fd. ltb fd 3;
  terminated = [];
  waited = [];
  pipedfork = record { fd_read = 0; fd_write = 0; child_pid = pos 0; wait_status = 1 };
}

mptools_create_pipedfork-Balanced_example :
    Balanced
      (some (3, 4))
      (some (5, 6))
      (pos 42)
      standard_streams
      (mptools_create_pipedfork (some (3, 4)) (some (5, 6)) (pos 42) standard_streams)
mptools_create_pipedfork-Balanced_example =
    mptools_create_pipedfork-Balanced (some (3, 4)) (some (5, 6)) (pos 42) standard_streams
      ((omega arith, refl, refl), (omega arith, refl, refl)) tt

-- ===== src/Tests/Options.antt =====
-- A command line that is accepted.
use tani_dvr.Prelude.Int.{ℤ, pos}
use tani_dvr.Options.{
  Opt, operation_mode, dvr_target, dvr_user, dvr_password, dvr_channel,
  process_command_line_arguments,
}
use tani_dvr.Options.InBounds.{AcceptedIfParsed, process_command_line_arguments-Accepted}
use tani_dvr.Prelude.{List, Option, [], none, some, ℕ, ◌-◌, ◌∷◌}

-- The value of one digit.
abbrev digit : List ℕ → Option ℤ
digit [] = none
digit (c ∷ cs) = some (pos (c - 48))

abbrev options : List Opt
options =
    operation_mode (b'1' ∷ [])
    ∷ dvr_target (b'h' ∷ [])
    ∷ dvr_user (b'u' ∷ [])
    ∷ dvr_password (b'w' ∷ [])
    ∷ dvr_channel (b'7' ∷ [])
    ∷ []

process_command_line_arguments-Accepted_example :
    AcceptedIfParsed (process_command_line_arguments digit (pos 77) options)
process_command_line_arguments-Accepted_example =
    process_command_line_arguments-Accepted digit (pos 77) options

-- ===== src/Utils/Tests.antt =====
-- The questions and the parser of the kernel command line at concrete inputs.
use secureblue.Base.{◌≤◌}
use secureblue.Base.{◌≡◌, refl}
use secureblue.Base.{true}
use secureblue.Base.{none, List, [], ◌∷◌}
use secureblue.Base.{nat_eq, string_eq, list_eq, list_beq}
use secureblue.Base.{all}
use secureblue.Base.Dict
use secureblue.Base.Dict.{Dict}
use secureblue.Base.Exec.{ok}
use secureblue.Base.{Str, codes, strip, is_space}
use secureblue.Base.Words.{lacks, no_space}
use secureblue.Utils.Ask.{Entered, typed, yes_no, ask_yes_no, ask_option}
use secureblue.Utils.Answers.{ask_yes_no_first, ask_option_bounds}
use secureblue.Utils.KernelCmdline.{Kargs, parse_kernel_cmdline}
use secureblue.Utils.Arguments.{Arg, flag, plain, quoted, print_args}
use secureblue.Utils.Printed.{last_value, parse_kernel_cmdline-print}

abbrev ask_yes_no_input : List Entered
ask_yes_no_input = typed (codes "maybe") ∷ typed (codes " YES ") ∷ typed (codes "no") ∷ []

ask_yes_no_first_example : ask_yes_no ask_yes_no_input ≡ (ok true, typed (codes "no") ∷ [])
unfolding yes_no strip list_beq
ask_yes_no_first_example =
    ask_yes_no_first (typed (codes "maybe") ∷ []) (typed (codes "no") ∷ []) (codes " YES ") true
      (refl, tt) refl

ask_option_bounds_example : (1 ≤ 3) × (3 ≤ 4)
unfolding ask_option strip list_beq
ask_option_bounds_example =
    ask_option_bounds 4 (typed (codes "9") ∷ typed (codes " 3") ∷ []) [] 3 refl

abbrev boot_args : List Arg
boot_args =
    flag (codes "quiet")
    ∷ plain (codes "lockdown") (codes "integrity")
    ∷ quoted (codes "dyndbg") (codes "file a.c +p")
    ∷ plain (codes "lockdown") (codes "confidentiality")
    ∷ []

parse_kernel_cmdline-print_example :
    (m : Kargs) × (parse_kernel_cmdline (print_args boot_args) ≡ ok m)
    × ((k : Str) → Dict.lookup k m ≡ last_value k boot_args none)
unfolding all no_space lacks list_beq is_space
parse_kernel_cmdline-print_example = parse_kernel_cmdline-print boot_args refl

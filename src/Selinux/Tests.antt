-- ===== src/Selinux/Tests.antt =====
-- ptrace configuration on concrete booleans.
use secureblue.Base.{arith}
use secureblue.Base.{◌≡◌, refl, ap, ◌∙◌, ◌⊎◌, inr}
use secureblue.Base.{Bool, true, false, if◌then◌else◌}
use secureblue.Base.{Option, none, some, List, [], ◌∷◌, ◌++◌}
use secureblue.Base.{◌==◌, nat_eq, string_eq, list_eq, list_beq, contains}
use secureblue.Base.{all}
use secureblue.Base.Exec.{ok, err}
use secureblue.Base.{Str, codes}
use secureblue.Base.Words.{partition, lacks, partition-append}
use secureblue.Utils.Config.{setsebool_args, assignments}
use secureblue.Selinux.Booleans.{Selinux, IsLawful, deny_ptrace, states, print_booleans, assigned}
use secureblue.Selinux.Ptrace.{
  called_process_error, get_ptrace_status, run_mode, booleans, set_booleans,
}
use secureblue.Selinux.Ptrace.{set_container_ptrace, check_ptrace_scope, lift}
use secureblue.Selinux.PtraceModes.{container, mode_name, aim, run_mode-status}

-- Booleans as a function, and a setsebool that reads its arguments.
abbrev Switches : Type 0
Switches = Str → Bool

abbrev read_value : Str → Bool
read_value v = v == codes "on"

abbrev apply : Str × Option Str → Switches → Switches
apply (name, none) s j = s j
apply (name, some v) s j = if j == name then read_value v else s j

abbrev assign_one : Str → Switches → Switches
assign_one a s = apply (partition b'=' a) s

abbrev assign : List Str → Switches → Switches
assign [] s = s
assign (a ∷ rest) s = assign rest (assign_one a s)

abbrev named : (names : List Str) → Switches → List (Str × Bool)
named [] s = []
named (name ∷ rest) s = (name, s name) ∷ named rest s

abbrev switches : Selinux
switches = record {
  State = Switches;
  is_on = λ k s. s k;
  getsebool = λ names s. some (print_booleans (named names s));
  setsebool = λ args s. (0, assign args s);
}

named-states : (names : List Str) (s : Switches) → named names s ≡ states switches names s
named-states [] s = refl
named-states (name ∷ rest) s = ap (λ r. (name, s name) ∷ r) (named-states rest s)

assign_one-at :
    (name : Str) (b : Bool) (s : Switches) (k : Str)
    → lacks b'=' name ≡ true
    → assign_one (name ++ (codes "=" ++ (if b then codes "on" else codes "off"))) s k
      ≡ (if k == name then b else s k)
assign_one-at name true s k h =
    ap (λ (p : Str × Option Str). apply p s k) (partition-append b'=' name (codes "on") h)
    ∙ unfold list_beq in refl
assign_one-at name false s k h =
    ap (λ (p : Str × Option Str). apply p s k) (partition-append b'=' name (codes "off") h)
    ∙ unfold list_beq in refl

assign-assignments :
    (sebools : List (Str × Bool)) (s : Switches) (k : Str)
    → all (λ (p : Str × Bool). lacks b'=' p.0) sebools ≡ true
    → assign (assignments sebools) s k ≡ assigned sebools k (s k)
unfolding assignments all
assign-assignments [] s k h = refl
assign-assignments ((name, b) ∷ rest) s k h =
    assign-assignments rest
      (assign_one (name ++ (codes "=" ++ (if b then codes "on" else codes "off"))) s) k
      (ground arith)
    ∙ ap (assigned rest k) (assign_one-at name b s k (ground arith))

assign-args :
    (sebools : List (Str × Bool)) (permanent : Bool) (s : Switches) (k : Str)
    → all (λ (p : Str × Bool). lacks b'=' p.0) sebools ≡ true
    → assign (setsebool_args sebools permanent) s k ≡ assigned sebools k (s k)
unfolding setsebool_args
assign-args sebools true s k h = unfold partition in assign-assignments sebools s k h
assign-args sebools false s k h = assign-assignments sebools s k h

switches-IsLawful : IsLawful switches
switches-IsLawful = record {
  getsebool_law = λ names s. inr (ap (λ p. some (print_booleans p)) (named-states names s));
  setsebool_law = λ sebools permanent s k h z. assign-args sebools permanent s k h;
}

abbrev denied : Switches
denied k = k == deny_ptrace

abbrev contained : Switches
contained = (run_mode switches 1 (some (mode_name container)) denied).1

contained-eq : run_mode switches 1 (some (mode_name container)) denied ≡ (ok 0, contained)
unfolding run_mode list_beq set_container_ptrace lift check_ptrace_scope booleans print_booleans
    contains set_booleans
contained-eq = refl

run_mode-status_example :
    (get_ptrace_status switches 1 contained ≡ (err called_process_error, contained))
    ⊎ (get_ptrace_status switches 1 contained ≡ (ok (aim container 1), contained))
run_mode-status_example =
    run_mode-status switches switches-IsLawful container 1 denied contained contained-eq

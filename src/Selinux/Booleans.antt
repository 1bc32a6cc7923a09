-- ===== src/Selinux/Booleans.antt =====
-- The programs getsebool and setsebool as an interface, and `get_selinux_booleans` on what they print.
use secureblue.Base.{ℕ}
use secureblue.Base.{◌≡◌, refl, ◌⊎◌}
use secureblue.Base.{Bool, true, false, if◌then◌else◌}
use secureblue.Base.{Option, none, some, List, [], ◌∷◌, ◌++◌}
use secureblue.Base.{◌==◌, nat_eq, string_eq, list_eq}
use secureblue.Base.{all}
use secureblue.Base.{Str, codes}
use secureblue.Base.Words.{lacks}
use secureblue.Utils.Config.{get_selinux_booleans, setsebool_args}

-- `getsebool` prints the state of the named booleans, or fails (`none`); `run0 -i setsebool` has an exit status.
pub record Selinux : Type 1 where
  pub State : Type 0
  pub is_on : Str → State → Bool
  pub getsebool : List Str → State → Option Str
  pub setsebool : List Str → State → ℕ × State

-- One line of getsebool, as its manual shows it.
unfoldable pub boolean_line : Str → Bool → Str
boolean_line name b = name ++ (codes " --> " ++ (if b then codes "on" else codes "off"))

unfoldable pub print_booleans : List (Str × Bool) → Str
unfolding boolean_line
print_booleans [] = []
print_booleans ((name, b) ∷ rest) = boolean_line name b ++ (10 ∷ print_booleans rest)

abbrev pub states : (se : Selinux) → List Str → se.State → List (Str × Bool)
states se [] s = []
states se (name ∷ rest) s = (name, se.is_on name s) ∷ states se rest s

-- What the boolean is after the assignments.
abbrev pub assigned : List (Str × Bool) → Str → Bool → Bool
assigned [] k before = before
assigned ((name, b) ∷ rest) k before = assigned rest k (if k == name then b else before)

-- What the manuals promise: the format of what is printed, and the effect of a call that succeeds,
-- for names without `=`.
pub record IsLawful (se : Selinux) : Type 0 where
  pub getsebool_law :
      (names : List Str) (s : se.State)
      → (se.getsebool names s ≡ none)
        ⊎ (se.getsebool names s ≡ some (print_booleans (states se names s)))
  pub setsebool_law :
      (sebools : List (Str × Bool)) (permanent : Bool) (s : se.State) (k : Str)
      → all (λ (p : Str × Bool). lacks b'=' p.0) sebools ≡ true
      → (se.setsebool (setsebool_args sebools permanent) s).0 ≡ 0
      → se.is_on k (se.setsebool (setsebool_args sebools permanent) s).1
        ≡ assigned sebools k (se.is_on k s)

abbrev pub deny_ptrace : Str
deny_ptrace = codes "deny_ptrace"

abbrev pub container_allow_ptrace : Str
container_allow_ptrace = codes "container_allow_ptrace"

-- The names that are on, of those two.
pub two_booleans :
    (deny allow : Bool)
    → get_selinux_booleans
        (print_booleans ((deny_ptrace, deny) ∷ (container_allow_ptrace, allow) ∷ []))
      ≡ some (
          (if deny then deny_ptrace ∷ [] else [])
          ++ (if allow then container_allow_ptrace ∷ [] else []))
unfolding get_selinux_booleans print_booleans
two_booleans true true = refl
two_booleans true false = refl
two_booleans false true = refl
two_booleans false false = refl

pub one_boolean :
    (deny : Bool)
    → get_selinux_booleans (print_booleans ((deny_ptrace, deny) ∷ []))
      ≡ some (if deny then deny_ptrace ∷ [] else [])
unfolding get_selinux_booleans print_booleans
one_boolean true = refl
one_boolean false = refl

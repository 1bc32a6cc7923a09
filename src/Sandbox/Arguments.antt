-- ===== src/Sandbox/Arguments.antt =====
-- The command line for run0: where its first separator stands, and which sandbox arguments it has.
use secureblue.Base.{◌≡◌, refl, inl, inr}
use secureblue.Base.{Bool, true, false, not, ◌&&◌, ◌||◌, if◌then◌else◌, Bool-cases}
use secureblue.Base.{Option, List, [], ◌∷◌}
use secureblue.Base.{◌==◌, nat_eq, string_eq, list_eq, contains}
use secureblue.Base.{any, any-append}
use mathlib.Core.Option
use secureblue.Base.{Str, codes, starts_with, contains-append}
use secureblue.Base.Membership.{contains-keep, contains-one}
use secureblue.Sandbox.Command.{SandboxedFunction}
use secureblue.Sandbox.Command.{starts_with_any, default_arguments, selected_arguments}
use secureblue.Sandbox.Command.{needs_background, get_arguments}

-- What stands before and behind the first `--`.
pub before_separator : List Str → List Str
before_separator [] = []
before_separator (a ∷ rest) =
    let more = before_separator rest in if a == codes "--" then [] else a ∷ more

pub after_separator : List Str → List Str
after_separator [] = []
after_separator (a ∷ rest) =
    let more = after_separator rest in if a == codes "--" then rest else more

abbrev is_separator : Str → Bool
is_separator a = a == codes "--"

-- An argument is passed to run0 exactly if it is a default, one that the function's own fields
-- imply included, and begins with none of the removed terms, or is an additional one, or is the
-- empty background of a process that is not interactive and has no other background.
pub contains-get_arguments :
    (f : SandboxedFunction) (a : Str)
    → contains (get_arguments f) a ≡ (
        ((contains (default_arguments f) a && not (starts_with_any f.remove_sandbox_arguments a))
          || contains f.additional_sandbox_properties a)
        || (a == codes "--background=" && needs_background f))
unfolding get_arguments selected_arguments
contains-get_arguments f a = simp (contains-append, contains-keep, contains-one)

-- A process that is not interactive always has an argument for the background.
pub get_arguments_background :
    (f : SandboxedFunction)
    → f.subprocess_interactive ≡ false
    → any (λ arg. starts_with arg (codes "--background")) (get_arguments f) ≡ true
unfolding get_arguments needs_background
get_arguments_background f h =
    let p = λ (arg : Str). starts_with arg (codes "--background") in
    elim (Bool-cases (any p (selected_arguments f))) [
      | inl there ↦ rw (any-append, there)
      | inr lacking ↦ simp (any-append, h, lacking) (unfold any starts_with in refl)
    ]

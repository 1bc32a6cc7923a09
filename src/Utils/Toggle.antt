-- ===== src/Utils/Toggle.antt =====
-- Modes of toggle scripts, and images, of shared/utils.py.
use secureblue.Base.{arith}
use secureblue.Base.{◌≡◌, refl, sym, ap, ◌∙◌, ◌↔◌, inl, inr}
use secureblue.Base.{Bool, true, false, not, ◌||◌, if◌then◌else◌, Bool-cases}
use secureblue.Base.{Option, none, some, List, [], ◌∷◌, String}
use secureblue.Base.{◌==◌, nat_eq, string_eq, list_eq, list_beq, list_beq_iff, contains}
use mathlib.Core.Option.{some-injective}
use secureblue.Base.Exec.{Result, ok, err}
use secureblue.Base.{Str, codes}
use secureblue.Base.Words.{partition}
use secureblue.Auditor.Status.{casefold}
use secureblue.Utils.Ask.{Entered, AskError, ask_yes_no}

pub data ToggleMode : Type 0 where
  on off status help : ToggleMode

pub data ToggleError : Type 0 where
  usage_error : String → ToggleError
  asking : AskError → ToggleError

-- `ToggleMode(mode)`, with the other spellings of help
unfoldable pub toggle_mode : Str → Option ToggleMode
unfolding list_beq
toggle_mode mode =
    if mode == codes "help" || (mode == codes "-h" || mode == codes "--help")
    then some help
    else if mode == codes "on"
    then some on
    else if mode == codes "off"
    then some off
    else if mode == codes "status"
    then some status
    else none

-- The answer to the prompt as a mode.
unfoldable pub asked_mode : Result AskError Bool × List Entered → Result ToggleError ToggleMode
asked_mode (ok b, rest) = ok (if b then on else off)
asked_mode (err e, rest) = err (asking e)

-- `has_prompt` is whether there is a prompt, and `args` is `sys.argv[1:]`.
unfoldable pub parse_basic_toggle_args :
    (has_prompt : Bool) → List Str → List Entered → Result ToggleError ToggleMode
unfolding toggle_mode asked_mode ask_yes_no casefold
parse_basic_toggle_args true [] entered = asked_mode (ask_yes_no entered)
parse_basic_toggle_args false [] entered = err (usage_error "Too many options specified")
parse_basic_toggle_args has_prompt (arg ∷ []) entered = elim (toggle_mode (casefold arg)) [
  | none ↦ err (usage_error "Invalid option selected")
  | some mode ↦ ok mode
]
parse_basic_toggle_args has_prompt (arg ∷ more ∷ rest) entered =
    err (usage_error "Too many options specified")

pub data Image : Type 0 where
  silverblue kinoite sericea cosmic coreos iot : Image

abbrev pub images : List Image
images = silverblue ∷ kinoite ∷ sericea ∷ cosmic ∷ coreos ∷ iot ∷ []

abbrev pub aliases_of : Image → List Str
aliases_of silverblue = codes "silverblue" ∷ codes "gnome" ∷ []
aliases_of kinoite = codes "kinoite" ∷ codes "kde" ∷ codes "plasma" ∷ []
aliases_of sericea = codes "sericea" ∷ codes "sway" ∷ []
aliases_of cosmic = codes "cosmic" ∷ []
aliases_of coreos = codes "securecore" ∷ codes "coreos" ∷ []
aliases_of iot = codes "iot" ∷ []

unfoldable pub first_with : Str → List Image → Option Image
unfolding contains list_beq
first_with alias [] = none
first_with alias (image ∷ rest) =
    let next = first_with alias rest in
    if contains (aliases_of image) alias then some image else next

unfoldable pub by_alias : Str → Option Image
unfolding casefold first_with
by_alias alias = first_with (casefold alias) images

-- `from_running`, given IMAGE_ID
unfoldable pub from_image_id : Str → Option Image
unfolding partition by_alias
from_image_id image = by_alias (partition b'-' image).0

unfoldable pub is_server : Image → Bool
is_server coreos = true
is_server iot = true
is_server _ = false

unfoldable pub is_desktop : Image → Bool
unfolding is_server
is_desktop image = not (is_server image)

of_equal :
    (c x : Str) (image : Image)
    → (c == x) ≡ true
    → first_with x images ≡ some image
    → first_with c images ≡ some image
of_equal c x image same h = ap (λ y. first_with y images) ((list_beq_iff c x).0 same) ∙ h

-- Each of the texts is found under the image.
abbrev AllFound : Image → List Str → Type 0
AllFound image [] = Unit {0}
AllFound image (x ∷ xs) = (first_with x images ≡ some image) × AllFound image xs

found-contains :
    (c : Str) (image : Image) (xs : List Str)
    → AllFound image xs
    → contains xs c ≡ true
    → first_with c images ≡ some image
unfolding contains
found-contains c image [] found h = cc
found-contains c image (x ∷ xs) (here, there) h = elim (Bool-cases (c == x)) [
  | inl e ↦ of_equal c x image e here
  | inr ne ↦ found-contains c image xs there (ground (arith, h, ne))
]

aliases_of-AllFound : (image : Image) → AllFound image (aliases_of image)
unfolding first_with contains list_beq
aliases_of-AllFound silverblue = (refl, (refl, tt))
aliases_of-AllFound kinoite = (refl, (refl, (refl, tt)))
aliases_of-AllFound sericea = (refl, (refl, tt))
aliases_of-AllFound cosmic = (refl, tt)
aliases_of-AllFound coreos = (refl, (refl, tt))
aliases_of-AllFound iot = (refl, tt)

first_with_sound :
    (c : Str) (image : Image) (all_images : List Image)
    → first_with c all_images ≡ some image
    → contains (aliases_of image) c ≡ true
unfolding first_with
first_with_sound c image [] h = cc
first_with_sound c image (i ∷ rest) h = elim (Bool-cases (contains (aliases_of i) c)) [
  | inl e ↦
      let found = rw e at h in
      ap (λ j. contains (aliases_of j) c) (sym (some-injective i image found)) ∙ e
  | inr ne ↦ let later = rw ne at h in first_with_sound c image rest later
]

-- A text stands for an image exactly if it is one of its aliases, whatever the case of its letters.
pub by_alias_iff :
    (alias : Str) (image : Image)
    → (by_alias alias ≡ some image) ↔ (contains (aliases_of image) (casefold alias) ≡ true)
unfolding by_alias
by_alias_iff alias image = (
  first_with_sound (casefold alias) image images,
  found-contains (casefold alias) image (aliases_of image) (aliases_of-AllFound image),
)

-- ===== src/Flatpak/State.antt =====
-- The state of an app in the audit, and how a permission is reported.
use secureblue.Base.{Bool, false, ◌||◌, if◌then◌else◌}
use secureblue.Base.{Option, none, some, List, [], ◌∷◌, ◌++◌}
use secureblue.Base.{◌==◌, nat_eq, string_eq, list_eq, list_beq}
use secureblue.Base.{Str, codes, join, strip}
use secureblue.Auditor.Status.{Status, pass, downgrade_to}
use secureblue.Auditor.Report.{Note, Recommendation}

pub record FlatpakPermissionsState : Type 0 where
  pub name : Str
  pub notes : List Note
  pub recs : List Recommendation
  pub status : Status
  pub arbitrary_permissions : Bool

unfoldable pub new_state : Str → FlatpakPermissionsState
new_state name = record {
  name = name;
  notes = [];
  recs = [];
  status = pass;
  arbitrary_permissions = false;
}

abbrev pub one_rec : Option Recommendation → List Recommendation
one_rec none = []
one_rec (some r) = r ∷ []

unfoldable pub update :
    Note → Option Recommendation → FlatpakPermissionsState → FlatpakPermissionsState
unfolding downgrade_to
update note rec s = record s {
  notes = s.notes ++ (note ∷ []);
  status = elim note.status [ none ↦ s.status | some t ↦ downgrade_to s.status t ];
  recs = s.recs ++ one_rec rec;
}

-- `state.arbitrary_permissions |= b`
unfoldable pub or_arbitrary : Bool → FlatpakPermissionsState → FlatpakPermissionsState
or_arbitrary b s = record s { arbitrary_permissions = s.arbitrary_permissions || b }

pub data Category : Type 0 where
  shared sockets devices features filesystems : Category

abbrev pub category_name : Category → Str
category_name shared = codes "shared"
category_name sockets = codes "sockets"
category_name devices = codes "devices"
category_name features = codes "features"
category_name filesystems = codes "filesystems"

-- FLATPAK_OVERRIDE_OPTIONS
abbrev pub override_options : Category → Str × Str
override_options shared = (codes "share", codes "unshare")
override_options sockets = (codes "socket", codes "nosocket")
override_options devices = (codes "device", codes "nodevice")
override_options features = (codes "allow", codes "disallow")
override_options filesystems = (codes "filesystem", codes "nofilesystem")

pub record PermissionCheck : Type 0 where
  pub category : Category
  pub permission : Str
  pub status : Status
  pub description : Option Str
  pub comment : Option Str
  pub endnote : Option Str
  pub sandbox_escape : Bool
  pub arbitrary_permissions : Bool

-- `text or ""`
abbrev or_empty : Option Str → Str
or_empty none = []
or_empty (some s) = s

unfoldable pub default_description : PermissionCheck → Str
default_description c =
    (override_options c.category).0 ++ (codes "=" ++ (c.permission ++ codes " permission"))

-- `self.description or self.default_description()`
unfoldable pub description_of : PermissionCheck → Str
unfolding default_description
description_of c = elim c.description [
  | none ↦ default_description c
  | some s ↦ elim s [ [] ↦ default_description c | d ∷ ds ↦ d ∷ ds ]
]

unfoldable pub note_of : PermissionCheck → Str → Note
unfolding description_of
note_of c name = record {
  text = name ++ (codes " has " ++ description_of c);
  status = some c.status;
}

abbrev pub names_placeholder : Str
names_placeholder = codes "[[NAMES_PLACEHOLDER]]"

abbrev pub app_id_line : Str
app_id_line = codes "(replacing \"com.example.Example\" with the flatpak app ID)"

unfoldable pub non_empty : List Str → List Str
unfolding strip list_beq
non_empty [] = []
non_empty (l ∷ ls) =
    let rest = non_empty ls in let line = strip l in if line == [] then rest else line ∷ rest

unfoldable pub recommendation : PermissionCheck → Str → Recommendation
unfolding description_of non_empty join
recommendation c name = record {
  text = join (10 ∷ []) (
      non_empty (
        (codes "The following flatpak app(s) have " ++ (description_of c ++ codes ":"))
        ∷ names_placeholder
        ∷ or_empty c.comment
        ∷ (if c.sandbox_escape
            then codes "This may also be used as a sandbox escape vector."
            else [])
        ∷ codes "To remove this permission from an app, use Flatseal or run:"
        ∷ (codes "$ flatpak override -u --"
            ++ ((override_options c.category).1
                ++ (codes "=" ++ (c.permission ++ codes " com.example.Example"))))
        ∷ app_id_line
        ∷ or_empty c.endnote
        ∷ []));
  mergeable_name = some name;
}

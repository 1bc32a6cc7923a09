-- ===== src/Checks/Desktop.antt =====
-- The checks of the groups of the user and of the desktops, of audit_secureblue.py.
use secureblue.Base.{Bool, true, not, if◌then◌else◌}
use secureblue.Base.{Option, none, some, List, [], ◌∷◌, ◌++◌, String}
use secureblue.Base.{◌==◌, nat_eq, string_eq, list_eq, list_beq, contains}
use secureblue.Base.Dict
use secureblue.Base.Dict.{Dict}
use secureblue.Base.Exec.{Result, ok, err}
use secureblue.Base.{Str, codes, join}
use secureblue.Base.Words.{words}
use secureblue.Auditor.Status.{Status, pass, info, warn, fail}
use secureblue.Auditor.Report.{Report}
use secureblue.Auditor.Check.{stateful}
use secureblue.Utils.Toggle.{Image, silverblue, kinoite, sericea, cosmic}
use secureblue.Checks.State.{CheckError, key_error, called_process_error}
use secureblue.Checks.State.{
  Commands, Opened, not_found, permission_error, contents, rec_of, report,
}
use secureblue.Checks.State.{AuditCheck, yields, raises, done_with, failed_with}
use secureblue.Utils.Config.{parse_config}
use secureblue.Checks.Containers.{add_note}
use secureblue.Checks.Services.{Graders, with_note}

unfoldable pub wheel_report : List Str → Report
unfolding contains join list_beq
wheel_report user_groups =
    if contains user_groups (codes "wheel")
    then report "Ensuring user is not a member of the wheel group" fail [] (
        rec_of (
          codes "The current user is in the wheel group."
          ∷ codes "To set up a separate wheel account, run:"
          ∷ codes "$ ujust create-admin"
          ∷ []))
    else report "Ensuring user is not a member of the wheel group" pass [] []

unfoldable pub known_groups : Str → List Str
known_groups username = username ∷ codes "brewadmin" ∷ codes "usbguard" ∷ codes "wheel" ∷ []

unfoldable pub dangerous_groups : List Str
dangerous_groups = codes "docker" ∷ codes "libvirt" ∷ codes "lxd" ∷ []

-- The status and the texts of a group; `none` for a known one. The recommendation ends with the command.
unfoldable pub judge_group : Str → Str → Option (Status × (Str × List Str))
unfolding known_groups dangerous_groups contains list_beq
judge_group username group =
    let text = codes "The current user is in the group '" ++ (group ++ codes "'.") in
    if contains (known_groups username) group
    then none
    else if contains dangerous_groups group
    then some (
      fail,
      (
        text,
        codes "This allows privilege escalation to root."
            ∷ codes "To remove the user from this group, run:"
            ∷ [],
      ),
    )
    else if group == codes "systemd-journal"
    then some (
      warn,
      (
        text,
        codes "This group allows the user to read system and kernel logs."
            ∷ codes "This might make it easier to exploit kernel vulnerabilities."
            ∷ codes "To remove the user from this group, run:"
            ∷ [],
      ),
    )
    else if group == codes "linuxbrew"
    then some (
      warn,
      (
        text,
        codes "This group allows the user to modify the Homebrew installation."
            ∷ codes "To remove the user from this group, run:"
            ∷ [],
      ),
    )
    else some (
      warn,
      (
        codes "The current user is in the unrecognized group '" ++ (group ++ codes "'."),
        codes "Group memberships can grant additional privileges and may pose security risks."
            ∷ codes "You may want to consider removing the user from this group:"
            ∷ [],
      ),
    )

unfoldable pub remove_group_cmd : Str → Str → Str
remove_group_cmd username group = codes "$ run0 -i usermod -rG " ++ (group ++ (32 ∷ username))

-- A turn of the loop over the groups, once the group is judged
unfoldable pub group_step : Str → Str → Option (Status × (Str × List Str)) → Graders → Graders
unfolding remove_group_cmd add_note join
group_step username group none g = g
group_step username group (some (status, (text, explanation))) g = record {
  graded = add_note status text g.graded;
  recs = g.recs ++ rec_of (text ∷ explanation ++ (remove_group_cmd username group ∷ []));
}

-- The loop over the groups, in the order in which the set is iterated.
unfoldable pub check_groups : Str → List Str → Graders → Graders
check_groups username [] g = g
check_groups username (group ∷ rest) g =
    check_groups username rest (group_step username group (judge_group username group) g)

unfoldable pub groups_report : Str → List Str → Report
unfolding check_groups
groups_report username user_groups =
    let g = check_groups username user_groups (record { graded = (pass, []); recs = [] }) in
    let (status, notes) = g.graded in
    report "Checking if user is in groups with security implications" status notes g.recs

-- `iterated` is the order of the frozenset of the words that `groups` prints.
unfoldable pub audit_groups : Commands → Str → (List Str → List Str) → AuditCheck
unfolding wheel_report groups_report words
audit_groups sys username iterated = elim (sys.stdout ("groups" ∷ [])) [
  | none ↦ raises called_process_error
  | some out ↦
      let user_groups = iterated (words out) in
      yields (wheel_report user_groups ∷ groups_report username user_groups ∷ [])
]

-- A check that reads `state["image"]`: a KeyError when it is absent, else the reports for the image.
unfoldable pub for_image : (Option Image → Result CheckError (List Report)) → AuditCheck
for_image check = stateful (λ s. elim s.image [
  | none ↦ failed_with key_error s
  | some image ↦ elim (check image) [ err e ↦ failed_with e s | ok reports ↦ done_with reports s ]
])

unfoldable pub xwayland_report : String → Str → Bool → Report
unfolding join
xwayland_report description de disabled =
    if disabled
    then report description pass [] []
    else report description fail [] (
        rec_of (
          (codes "Xwayland is enabled for " ++ (de ++ codes "."))
          ∷ codes "To disable it, run:"
          ∷ codes "$ ujust set-xwayland off"
          ∷ []))

unfoldable pub xwayland_reports : (String → Bool) → Option Image → List Report
unfolding xwayland_report
xwayland_reports is_file (some silverblue) =
    xwayland_report "Ensuring Xwayland is disabled for GNOME" (codes "GNOME")
      (is_file "/etc/systemd/user/org.gnome.Shell@user.service.d/override.conf")
    ∷ []
xwayland_reports is_file (some kinoite) =
    xwayland_report "Ensuring Xwayland is disabled for KDE Plasma" (codes "KDE Plasma")
      (is_file "/etc/systemd/user/plasma-kwin_wayland.service.d/override.conf")
    ∷ []
xwayland_reports is_file (some sericea) =
    xwayland_report "Ensuring Xwayland is disabled for Sway" (codes "Sway")
      (is_file "/etc/sway/config.d/99-noxwayland.conf")
    ∷ []
xwayland_reports is_file _ = []

unfoldable pub audit_xwayland : (String → Bool) → AuditCheck
unfolding for_image xwayland_reports
audit_xwayland is_file = for_image (λ image. ok (xwayland_reports is_file image))

unfoldable pub thumbnailing_report : String → Str → Bool → Report
unfolding join
thumbnailing_report description de thumbnailing_disabled =
    if thumbnailing_disabled
    then report description pass [] []
    else report description fail [] (
        rec_of (
          (codes "Thumbnailing is enabled for " ++ (de ++ codes "."))
          ∷ codes "To disable it, consult the following FAQ:"
          ∷ codes "https://secureblue.dev/faq#thumbnailing"
          ∷ []))

-- `thumbnail_plugins` is the option Plugins of dolphinrc with its fallback, if the file exists.
unfoldable pub thumbnailing_reports :
    Commands → Option Str → Option Image → Result CheckError (List Report)
unfolding thumbnailing_report list_beq
thumbnailing_reports sys thumbnail_plugins (some silverblue) =
    elim (sys.stdout (
      "/usr/bin/gsettings" ∷ "get" ∷ "org.gnome.nautilus.preferences" ∷ "show-image-thumbnails"
      ∷ [])) [
        | none ↦ err called_process_error
        | some out ↦ ok (
            thumbnailing_report "Ensuring thumbnailing is disabled for GNOME" (codes "GNOME")
              (out == codes "'never'")
            ∷ [])
      ]
thumbnailing_reports sys thumbnail_plugins (some kinoite) = ok (
    thumbnailing_report "Ensuring thumbnailing is disabled for KDE Plasma" (codes "KDE Plasma")
      (elim thumbnail_plugins [ none ↦ true | some plugins ↦ plugins == [] ])
    ∷ [])
thumbnailing_reports sys thumbnail_plugins (some sericea) = ok (
    thumbnailing_report "Ensuring thumbnailing is disabled for Sway" (codes "Sway") (
      not (
        sys.succeeds ("systemctl" ∷ "is-enabled" ∷ "--quiet" ∷ "--user" ∷ "tumblerd.service" ∷ [])))
    ∷ [])
thumbnailing_reports sys thumbnail_plugins (some cosmic) = ok (
    with_note "Ensuring thumbnailing is disabled for COSMIC" info
      (codes "COSMIC Files doesn't yet support disabling thumbnails.") []
    ∷ [])
thumbnailing_reports sys thumbnail_plugins _ = ok []

unfoldable pub audit_thumbnailing : Commands → Option Str → AuditCheck
unfolding for_image thumbnailing_reports
audit_thumbnailing sys thumbnail_plugins = for_image (thumbnailing_reports sys thumbnail_plugins)

unfoldable pub gnome_extensions_reports : Commands → Option Image → Result CheckError (List Report)
unfolding join list_beq
gnome_extensions_reports sys (some silverblue) =
    elim (sys.stdout
      ("/usr/bin/gsettings" ∷ "get" ∷ "org.gnome.shell" ∷ "allow-extension-installation" ∷ [])) [
        | none ↦ err called_process_error
        | some allowed ↦ ok (
            (if allowed == codes "false"
              then report "Ensuring GNOME user extensions are disabled" pass [] []
              else report "Ensuring GNOME user extensions are disabled" fail [] (
                  rec_of (
                    codes "GNOME user extensions are enabled."
                    ∷ codes "To disable this, run:"
                    ∷ codes "$ ujust toggle-gnome-extensions"
                    ∷ [])))
            ∷ [])
      ]
gnome_extensions_reports sys _ = ok []

unfoldable pub audit_gnome_extensions : Commands → AuditCheck
unfolding for_image gnome_extensions_reports
audit_gnome_extensions sys = for_image (gnome_extensions_reports sys)

unfoldable pub ghns_report : Opened (List Str) → Report
unfolding parse_config Dict.lookup join list_beq
ghns_report file =
    let missing =
      with_note "Ensuring KDE GHNS is disabled" warn
        (codes "The file /etc/xdg/kdeglobals was not found or inaccessible.") [] in
    let failed = report "Ensuring KDE GHNS is disabled" fail [] (
      rec_of (
        codes "KDE GNHS is enabled."
        ∷ codes "To disable it, run:"
        ∷ codes "$ ujust toggle-ghns"
        ∷ [])) in
    elim file [
      | not_found ↦ missing
      | permission_error ↦ missing
      | contents conf ↦ elim (Dict.lookup (codes "ghns") (parse_config b'=' conf)) [
        | none ↦ failed
        | some v ↦
            if v == codes "false" then report "Ensuring KDE GHNS is disabled" pass [] [] else failed
      ]
    ]

unfoldable pub kde_ghns_reports : Opened (List Str) → Option Image → List Report
unfolding ghns_report
kde_ghns_reports file (some kinoite) = ghns_report file ∷ []
kde_ghns_reports file _ = []

unfoldable pub audit_kde_ghns : Opened (List Str) → AuditCheck
unfolding for_image kde_ghns_reports
audit_kde_ghns file = for_image (λ image. ok (kde_ghns_reports file image))

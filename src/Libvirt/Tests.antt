-- ===== src/Libvirt/Tests.antt =====
-- A toggle of the daemons of libvirt over a systemctl that keeps the enabled sockets.
use secureblue.Base.{arith}
use secureblue.Base.{◌≡◌, refl, inl, inr}
use secureblue.Base.{Bool, true, false, not, ◌&&◌, ◌||◌, if◌then◌else◌, Bool-cases}
use secureblue.Base.{Option, some, List, [], ◌∷◌, map}
use secureblue.Base.{◌==◌, nat_eq, string_eq, list_eq, list_beq, contains}
use secureblue.Base.{any, keep}
use secureblue.Base.{Str, codes}
use secureblue.Libvirt.Daemons.{
  Daemon, Selection, LibvirtUnit, modular, monolithic, service, socket, socket_ro, socket_admin,
  is_log, Systemctl, toggle, is_qemud, secretd, toggle_to, current_status, enabled_lines, units_of,
  daemons, apply_selection, disable_systemd_units, daemon_eq,
}
use secureblue.Libvirt.Units.{has_socket}
use secureblue.Libvirt.Selected.{IsLawful, on, Own, toggle-on}

abbrev socket_on : LibvirtUnit → Selection → Bool
socket_on (modular d socket) s = s d
socket_on _ s = false

abbrev status_line : Selection → LibvirtUnit → Str
status_line s u = if socket_on u s then codes "enabled" else codes "disabled"

-- As in the unit files of libvirt: virtqemud.service has the sockets of virtlogd and virtlockd along.
abbrev qemud_pulls : LibvirtUnit → Daemon → Bool
qemud_pulls (modular e service) d = is_qemud e && is_log d
qemud_pulls (modular e socket) d = false
qemud_pulls (modular e socket_ro) d = false
qemud_pulls (modular e socket_admin) d = false
qemud_pulls (monolithic name) d = false

abbrev reaches : List LibvirtUnit → Daemon → Bool
reaches us d = has_socket d us || any (λ u. qemud_pulls u d) us

abbrev sockets_only : Systemctl
sockets_only = record {
  State = Selection;
  is_on = socket_on;
  is_enabled = λ us s. (map (status_line s) us, any (λ u. socket_on u s) us);
  run_enable = λ us s. (true, λ d. reaches us d || s d);
  run_disable = λ us s. (true, λ d. not (reaches us d) && s d);
}

status_line-enabled :
    (s : Selection) (d : Daemon) → (status_line s (modular d socket) == codes "enabled") ≡ s d
unfolding list_beq
status_line-enabled s d = elim (Bool-cases (s d)) [ inl e ↦ rw e refl | inr e ↦ rw e refl ]

sockets_only-lines :
    (ds : List Daemon) (s : Selection)
    → map (λ line. line == codes "enabled") (map (status_line s) (map (λ d. modular d socket) ds))
      ≡ map (λ d. s d) ds
sockets_only-lines [] s = refl
sockets_only-lines (d ∷ ds) s = rw (status_line-enabled s d, sockets_only-lines ds s) refl

sockets_only-IsLawful : IsLawful sockets_only
sockets_only-IsLawful = record {
  pulls = qemud_pulls;
  is_enabled_law = sockets_only-lines;
  enable_law = λ us s d h. refl;
  disable_law = λ us s d h. refl;
}

-- Only virtqemud is chosen, on a system with all sockets enabled.
abbrev all_on : Selection
all_on d = true

abbrev qemud_only : Selection → Option Selection
qemud_only current = some is_qemud

abbrev toggled : Selection
toggled = (toggle sockets_only qemud_only all_on).1

secretd-Own : Own sockets_only sockets_only-IsLawful secretd
unfolding sockets_only-IsLawful
secretd-Own (modular e service) h = ground (arith, h)
secretd-Own (modular e socket) h = ground (arith, h)
secretd-Own (modular e socket_ro) h = ground (arith, h)
secretd-Own (modular e socket_admin) h = ground (arith, h)
secretd-Own (monolithic name) h = ground (arith, h)

toggle-on_example : on sockets_only sockets_only-IsLawful toggled secretd ≡ false
unfolding toggle apply_selection current_status enabled_lines units_of daemons keep list_beq any
    contains toggle_to disable_systemd_units
toggle-on_example =
    toggle-on sockets_only sockets_only-IsLawful qemud_only is_qemud all_on toggled secretd
      secretd-Own refl refl

-- ===== src/Lib.antt =====
-- The privileged and the auditing parts of secureblue's Python programs, under
-- files/system/usr/libexec/secureblue/.
--
-- Base: numbers, lists, texts (lists of code points), dictionaries, state with errors, and `textwrap.dedent`.
-- SecureBoot: shared/secure_boot.py (`is_cert_in_signature_list` and the efivars, in
-- SignatureList and Efivars) and inner/secure_boot.py (the worker that enrolls keys, in Enroll).
-- Encoding describes well-formed signature databases, Database is about the search in them, and Staged and BootLoader are about
-- what a run leaves. The file system is a dictionary from paths to contents with the immutable flag.
-- Auditor: auditor/__init__.py. Status, Report, Check and Audit have the classes, Recs has
-- `_print_recs`. A check's callback gives its reports, the exception that ends it and the shared
-- state after it. Order is about registration, Runs about `Audit.run`.
-- Kargs: inner/set_kargs_uki.py (Addon, Worker), shared/kargs_hardening.py,
-- set_kargs_hardening.py and remove_kargs_hardening.py (Build). A directory of addons is the list
-- of its file names. Directories and SetArithmetic are about the worker's `main`.
-- Sandbox: shared/sandbox.py. Command has `SandboxedFunction` and the command line that is handed
-- to the process; Arguments is about its first separator and its sandbox arguments.
-- Systemd: `SystemdService` of shared/utils.py, over a record for the program systemctl; Sample is a concrete
-- one.
-- Dns: inner/dns.py and dns_selector.py. World is the worker's state (units, files, /etc/resolv.conf), Settings
-- and Worker have its functions; Actions, Resolver, Restart, Dnssec and Written its proofs, each with what it takes
-- systemctl to do; Sample shows that it can be done. Questions has the
-- questions of the selector and the requests that they lead to, Status what `status` prints, Selector its
-- `main`; Outcome, Choices and Requests are about the questions, Shows about `main`.
-- Flatpak: audit_flatpak/__init__.py (Permissions, State, Checks) and audit_flatpak/filesystem.py
-- (Filesystem); Invariant, Known, Verdict and Sections have the proofs. Its notes and recommendations are
-- those of Auditor.
-- Utils: shared/utils.py. Ask has the questions, over the list of what the user enters; Toggle the
-- arguments of toggles and the images; Config the parsers of configuration files, of /proc/modules and of
-- getsebool; KernelCmdline the parser of the kernel command line. Printed and Answers are about them.
-- Selinux: shared/ptrace.py and set_ptrace.py (Ptrace), over an interface for getsebool and setsebool
-- (Booleans). PtraceModes is about what a run of set_ptrace.py leaves.
-- Libvirt: set_libvirt_daemons.py (Daemons), over an interface for systemctl; Units is about the
-- units of a selection, Selected about a toggle.
-- Toggles: bluetooth_main.py, webcam_main.py, dhcp_hostname_sending_main.py, set_cups.py,
-- set_container_userns.py and set_unconfined_userns.py with their workers in inner/. Host has the files and
-- `sandbox.run`, Modprobe the first two scripts, Userns the two for user namespaces over an interface for semodule,
-- Hostname and Cups the others. SwitchLaws, Switches, UsernsSet and WebcamAudit are about what a run leaves.
-- Checks: audit_secureblue.py and audit_utils/. A check is a function from what it reads of the system
-- to a callback of Auditor; State has the entries of the shared state and the commands. Kargs, Sysctl,
-- Kernel, Policy, Containers, Services, Updates, Network, Desktop, System and Flatpaks have the checks,
-- Grade, UnitGrades, PolicyPasses, PolicyContents, KargsPass, SysctlPass, Groups, DnsPasses and Depends
-- the proofs. DnsStatus, DnsLines and DnsAgrees are about reading what dns_selector.py prints, DnsWorks about the
-- way from the DNS worker to the check.
--
-- The Kargs worker gets its request from the hardening scripts, and all workers are started through
-- the sandbox. The DNS worker gets its request from the selector and acts through Systemd; the check of DNS
-- reads what the selector prints. The checks run in Auditor's queue, read the kernel command line and the
-- images through Utils, the ptrace status through Selinux, and judge flatpaks by Flatpak.
--
-- Fuel: the loop over signature lists gets one unit per byte and one more, and each round consumes at
-- least one byte; the termination theorem below covers it. All other loops are structural.
--
-- Parameters: `chattr` and SHA-256, systemctl, gettext's translation, the list of default kernel
-- arguments that an image ships, the user database, `ipaddress`, `urlparse`, `configparser` and `json`. Not
-- modelled: how run0 reads its options, printing other than the status of the DNS selector, sleeping, the
-- parsing of command lines by argparse, the syntax of JSON and TOML, and the scripts for updates, firmware
-- and accounts.
-- `int` takes ASCII digits only, and descriptions of reports that name an app or a remote are kept as that name.
-- `splitlines` breaks lines at line feeds only, and `casefold`, `strip` and `split` are those of ASCII.
-- The files that are read as text are UTF-8.
pub mod Base
pub mod SecureBoot
pub mod Auditor
pub mod Kargs
pub mod Sandbox
pub mod Systemd
pub mod Toggles
pub mod Dns
pub mod Flatpak
pub mod Utils
pub mod Selinux
pub mod Checks
pub mod Libvirt

-- ===== src/Sandbox/Tests.antt =====
-- The sandbox of the DNS worker, at a concrete command line.
use secureblue.Base.{false, [], ◌∷◌}
use secureblue.Base.{list_eq, nat_eq, codes}
use mathlib.Core.Option
use secureblue.Sandbox.Command.{SandboxedFunction}

abbrev dns_worker : SandboxedFunction
dns_worker = record {
  file_name = codes "dns.py";
  capabilities = codes "CAP_CHOWN" ∷ [];
  read_write_paths = codes "/etc" ∷ [];
  allowed_syscalls = codes "@chown" ∷ [];
  additional_sandbox_properties = codes "--property=RestrictAddressFamilies=AF_INET" ∷ [];
  remove_sandbox_arguments = codes "--property=InaccessiblePaths=" ∷ [];
  subprocess_interactive = false;
}

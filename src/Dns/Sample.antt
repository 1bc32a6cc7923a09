-- ===== src/Dns/Sample.antt =====
-- The concrete systemctl does what the proofs about the DNS worker assume.
use secureblue.Base.{arith}
use secureblue.Base.{◌≡◌, refl, inl, inr}
use secureblue.Base.{true, Bool-cases, [], ◌∷◌}
use secureblue.Base.{nat_eq, string_eq, list_eq}
use secureblue.Systemd.{enable, start}
use secureblue.Systemd.Sample.{Units, call, systemctl}
use secureblue.Dns.Worker.{DnsResolver, unbound, resolved, service, network_manager}
use secureblue.Dns.Actions.{StopsOnly}
use secureblue.Dns.Restart.{StartsManager}
use secureblue.Dns.Resolver.{
  SwitchesResolver, close_socket, close_control, unmask_resolved, enable_resolved, LaterCall,
  actions_of, unit_of,
}

stop_resolver :
    (r r' : DnsResolver) (s : Units)
    → systemctl.is_enabled (service r) (call ("stop" ∷ []) (service r') s).1
      ≡ systemctl.is_enabled (service r) s
stop_resolver r r' s = refl

pub sample-StopsOnly : StopsOnly systemctl
sample-StopsOnly = record { stop_manager = λ r s. refl; stop_service = stop_resolver }

start_manager :
    (s : Units)
    → (call start network_manager s).0 ≡ 0
    → systemctl.is_active network_manager (call start network_manager s).1 ≡ true
start_manager s h = elim (Bool-cases (s.masked network_manager)) [
  | inl e ↦ let failed = rw e at h in absurd (ground (arith, failed))
  | inr e ↦ rw e refl
]

pub sample-StartsManager : StartsManager systemctl
sample-StartsManager = record { start_manager = start_manager }

enable_gives :
    (r : DnsResolver) (s : Units)
    → (call enable (service r) s).0 ≡ 0
    → systemctl.is_enabled (service r) (call enable (service r) s).1 ≡ true
enable_gives unbound s h = elim (Bool-cases (s.masked (service unbound))) [
  | inl e ↦ let failed = rw e at h in absurd (ground (arith, failed))
  | inr e ↦ ground (arith, e)
]
enable_gives resolved s h = elim (Bool-cases (s.masked (service resolved))) [
  | inl e ↦ let failed = rw e at h in absurd (ground (arith, failed))
  | inr e ↦ ground (arith, e)
]

keeps_masked :
    (later : LaterCall) (s : Units)
    → s.masked (service unbound) ≡ true
    → (call (actions_of later) (unit_of later) s).1.masked (service unbound) ≡ true
keeps_masked close_socket s h = h
keeps_masked close_control s h = h
keeps_masked unmask_resolved s h = h
keeps_masked enable_resolved s h = elim (Bool-cases (s.masked (service resolved))) [
  | inl e ↦ rw e h
  | inr e ↦ rw e h
]

pub sample-SwitchesResolver : SwitchesResolver systemctl
sample-SwitchesResolver = record {
  enable_law = enable_gives;
  unbound_masked = λ s. s.masked (service unbound);
  mask_law = λ s h. refl;
  masked_law = λ s h. ground (arith, h);
  keeps_masked = keeps_masked;
}

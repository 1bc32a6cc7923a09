-- ===== src/Dns/Selector.antt =====
-- `main` of dns_selector.py.
use secureblue.Base.{ℕ}
use secureblue.Base.{Bool}
use secureblue.Base.{Option, none, some, List, []}
use secureblue.Base.{nat_eq, string_eq, list_eq}
use secureblue.Base.Exec.{Result, ok, err}
use secureblue.Base.{Str}
use secureblue.Utils.Ask.{Entered, AskError}
use secureblue.Dns.Worker.{DnsResolver, Command, reset, set_dnssec, set_resolver_to}
use secureblue.Dns.Questions.{Parsers, Provider, run_interactive}
use secureblue.Dns.Status.{
  EffectiveResolver, is_effective_unbound, unbound, Readers, Sources, detect, Printed,
  print_all_status,
}

-- The command line that `parse_args` takes; `interactive` is none.
pub data Args : Type 0 where
  interactive status reset_all : Args
  dnssec : (enable_dnssec : Bool) → Args
  resolver : DnsResolver → Args

-- Any other exception is a traceback.
pub data MainError : Type 0 where
  asking : AskError → MainError
  traceback : MainError

-- The machine: what the status is read from, and `sandbox.run` of the worker, with its exit code.
pub record Machine : Type 1 where
  pub Host : Type 0
  pub sources : Host → Sources
  pub run : Command → Host → ℕ × Host

module _ (machine : Machine) (readers : Readers) (parsers : Parsers)
    (providers : List Provider) where
  open machine use {Host, sources, run}

  -- The exit code, and the lines of status that are printed.
  abbrev pub Finished : Type 0
  Finished = Result MainError (ℕ × List Str) × Host

  unfoldable pub with_code : ℕ → Printed → Result MainError (ℕ × List Str)
  with_code exit_code none = err traceback
  with_code exit_code (some printed) = ok (exit_code, printed)

  -- `print_all_status()` and `return exit_code`
  unfoldable pub end_with : ℕ × Host → Finished
  unfolding with_code print_all_status
  end_with (exit_code, host) = (with_code exit_code (print_all_status readers (sources host)), host)

  unfoldable pub set_dnssec_with : Option EffectiveResolver → Bool → Host → Finished
  unfolding end_with
  set_dnssec_with none enable_dnssec host = (err traceback, host)
  set_dnssec_with (some unbound) enable_dnssec host = end_with (run (set_dnssec enable_dnssec) host)
  set_dnssec_with (some _) enable_dnssec host = (ok (1, []), host)

  -- What the session asks for; without a request the exit code is 1.
  unfoldable pub run_request : Result AskError (Option Command) → Host → Finished
  unfolding end_with
  run_request (err e) host = (err (asking e), host)
  run_request (ok none) host = end_with (1, host)
  run_request (ok (some command)) host = end_with (run command host)

  unfoldable pub run_session : Printed → Option EffectiveResolver → List Entered → Host → Finished
  unfolding run_request run_interactive
  run_session none current entered host = (err traceback, host)
  run_session (some printed) none entered host = (err traceback, host)
  run_session (some printed) (some current) entered host =
      run_request (run_interactive parsers providers (is_effective_unbound current) entered).0 host

  -- The lines are those of the status at the end.
  unfoldable pub main : Args → List Entered → Host → Finished
  unfolding run_session set_dnssec_with end_with detect print_all_status
  main interactive entered host =
      run_session (print_all_status readers (sources host)) (detect (sources host).resolv_conf)
        entered host
  main status entered host = end_with (0, host)
  main (dnssec enable_dnssec) entered host =
      set_dnssec_with (detect (sources host).resolv_conf) enable_dnssec host
  main reset_all entered host = end_with (run reset host)
  main (resolver backend) entered host = end_with (run (set_resolver_to backend) host)

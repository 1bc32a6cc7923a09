-- ===== src/Dns/Settings.antt =====
-- The settings that are files: global DNS servers, the browser's DoH policy and DNSSEC validation.
use secureblue.Base.{ℕ, ◌+◌, ◌-◌, ◌/◌, ◌%◌}
use secureblue.Base.{Bool, true, false, ◌&&◌, ◌||◌, if◌then◌else◌, ltb, leb}
use secureblue.Base.{Option, none, some, List, [], ◌∷◌, ◌++◌}
use secureblue.Base.{◌==◌, nat_eq, string_eq, list_eq, list_beq, contains}
use secureblue.Base.Exec.{Exec}
use secureblue.Base.{Str, codes, join, strip, split_lines, starts_with}
use secureblue.Base.Dedent.{dedent}
use secureblue.Auditor.Status.{casefold}
use secureblue.Dns.World.{World, Exit, write_conf, unlink, dnsconfd_conf_path}
use secureblue.Dns.World.{nm_globaldns_conf_path, trivalent_policy_path}

abbrev pub newline : Str
newline = 10 ∷ []

-- The indentation of the template
abbrev indent : Str
indent = codes "        "

-- The lines of the template, as they are indented in the source
unfoldable pub globaldns_template : Str → Str
unfolding join
globaldns_template servers = join newline (
    []
    ∷ (indent ++ codes "[global-dns]")
    ∷ (indent ++ codes "resolve-mode=exclusive")
    ∷ []
    ∷ (indent ++ codes "[global-dns-domain-*]")
    ∷ (indent ++ (codes "servers=" ++ servers))
    ∷ indent
    ∷ [])

-- `textwrap.dedent(…).strip()`
unfoldable pub globaldns_config : Str → Str
unfolding strip dedent globaldns_template
globaldns_config servers = strip (dedent (globaldns_template servers))

-- A hexadecimal digit of a JSON escape
unfoldable pub hex_digit : ℕ → ℕ
hex_digit d = if ltb d 10 then b'0' + d else b'a' + (d - 10)

unfoldable pub unicode_escape : ℕ → Str
unfolding hex_digit
unicode_escape c =
    codes "\\u"
    ++ (hex_digit (c / 4096)
        ∷ hex_digit (c / 256 % 16)
        ∷ hex_digit (c / 16 % 16)
        ∷ hex_digit (c % 16)
        ∷ [])

-- A character as `json.dumps` writes it in a string
unfoldable pub json_char : ℕ → Str
unfolding unicode_escape
json_char c =
    if c == 34
    then codes "\\\""
    else if c == 92
    then codes "\\\\"
    else if c == 10
    then codes "\\n"
    else if c == 13
    then codes "\\r"
    else if c == 9
    then codes "\\t"
    else if c == 8
    then codes "\\b"
    else if c == 12
    then codes "\\f"
    else if leb 32 c && ltb c 127
    then c ∷ []
    else if ltb c 0x10000
    then unicode_escape c
    else unicode_escape (0xd800 + (c - 0x10000) / 1024)
      ++ unicode_escape (0xdc00 + (c - 0x10000) % 1024)

unfoldable pub json_string : Str → Str
unfolding json_char
json_string [] = []
json_string (c ∷ s) = json_char c ++ json_string s

-- `json.dumps({…}, indent=4)` of the two entries
unfoldable pub trivalent_policy : Str → Str
unfolding json_string
trivalent_policy https_endpoint =
    codes "{"
    ++ (newline
        ++ (codes "    \"DnsOverHttpsMode\": \"secure\","
            ++ (newline
                ++ (codes "    \"DnsOverHttpsTemplates\": \""
                    ++ (json_string https_endpoint ++ (codes "\"" ++ (newline ++ codes "}")))))))

module _ {Units : Type 0} where
  -- `None` and the empty text remove the file.
  unfoldable pub set_global_nm_servers : Str → Exec (World Units) Exit (Unit {0})
  unfolding write_conf unlink
  set_global_nm_servers [] = unlink nm_globaldns_conf_path
  set_global_nm_servers (c ∷ s) =
      write_conf nm_globaldns_conf_path (globaldns_config (c ∷ s) ++ newline)

  unfoldable pub set_trivalent_doh_endpoint : Str → Exec (World Units) Exit (Unit {0})
  unfolding write_conf unlink
  set_trivalent_doh_endpoint [] = unlink trivalent_policy_path
  set_trivalent_doh_endpoint (c ∷ s) =
      write_conf trivalent_policy_path (trivalent_policy (c ∷ s) ++ newline)

  unfoldable pub set_dnssec_enabled : Bool → Exec (World Units) Exit (Unit {0})
  unfolding write_conf unlink
  set_dnssec_enabled false = unlink dnsconfd_conf_path
  set_dnssec_enabled true = write_conf dnsconfd_conf_path (codes "dnssec_enabled: yes" ++ newline)

-- `print_dnssec_status` of dns_selector.py: the last line that speaks of it counts.
unfoldable pub value_of : Str → Str
value_of [] = []
value_of (c ∷ s) = if c == b':' then s else value_of s

unfoldable pub dnssec_lines : Bool → List Str → Bool
unfolding strip starts_with casefold list_beq contains value_of
dnssec_lines dnssec_enabled [] = dnssec_enabled
dnssec_lines dnssec_enabled (raw_line ∷ rest) =
    let line = strip raw_line in
    dnssec_lines
      (if line == [] || starts_with line (codes "#")
        then dnssec_enabled
        else if starts_with line (codes "dnssec_enabled:")
        then contains (codes "yes" ∷ codes "true" ∷ []) (casefold (strip (value_of line)))
        else dnssec_enabled)
      rest

unfoldable pub dnssec_status : Option Str → Bool
unfolding dnssec_lines split_lines
dnssec_status none = false
dnssec_status (some content) = dnssec_lines false (split_lines content)

-- ===== src/Checks/DnsStatus.antt =====
-- What the DNS check of audit_secureblue.py makes of what `dns_selector.py status` prints.
use secureblue.Base.{arith}
use secureblue.Base.{◌≡◌, refl, sym, ap, ◌∙◌, inl, inr}
use secureblue.Base.{Bool, true, false, not, if◌then◌else◌, Bool-cases, Option-cases}
use secureblue.Base.{Option, none, some, List, [], ◌∷◌, ◌++◌}
use secureblue.Base.{◌==◌, nat_eq, string_eq, list_eq, list_beq, list_beq_iff, contains}
use secureblue.Base.{all}
use secureblue.Base.Dict
use secureblue.Base.Dict.{Dict}
use secureblue.Base.{Str, codes, strip}
use secureblue.Base.Words.{partition}
use secureblue.Base.Dict.{lookup-insert}
use secureblue.Checks.Network.{status_flags}

abbrev pub flag_names : List Str
flag_names = codes "Global DNS" ∷ codes "DNSSEC" ∷ codes "Trivalent DoH" ∷ codes "DNS Resolver" ∷ []

-- The key of a line, if it has one, is none of those that the check reads.
abbrev pub other_key : Str → Bool
other_key line = not (contains flag_names (strip (partition b':' line).0))

-- What a line leaves of the value of a key.
abbrev pub value_at : Str → Str → Option Str → Option Str
value_at name line current = elim (partition b':' line).1 [
  | none ↦ current
  | some value ↦ if name == strip (partition b':' line).0 then some (strip value) else current
]

unfoldable pub last_value : Str → List Str → Option Str → Option Str
unfolding list_beq partition strip
last_value name [] current = current
last_value name (line ∷ rest) current = last_value name rest (value_at name line current)

value_none :
    (name line : Str) (current : Option Str)
    → (partition b':' line).1 ≡ none
    → value_at name line current ≡ current
value_none name line current e = rw (e, value_at) refl

value_some :
    (name line value : Str) (flags : Dict Str Str)
    → (partition b':' line).1 ≡ some value
    → Dict.lookup name (Dict.insert (strip (partition b':' line).0) (strip value) flags)
      ≡ value_at name line (Dict.lookup name flags)
value_some name line value flags e =
    lookup-insert name (strip (partition b':' line).0) (strip value) flags
    ∙ sym (rw (e, value_at) refl)

pub lookup-status_flags :
    (name : Str) (ls : List Str) (flags : Dict Str Str)
    → Dict.lookup name (status_flags ls flags) ≡ last_value name ls (Dict.lookup name flags)
unfolding status_flags last_value
lookup-status_flags name [] flags = refl
lookup-status_flags name (line ∷ rest) flags = elim (Option-cases (partition b':' line).1) [
  | inl e ↦
      rw (e, status_flags) (lookup-status_flags name rest flags)
      ∙ ap (λ c. last_value name rest c) (sym (value_none name line (Dict.lookup name flags) e))
  | inr (value, e) ↦
      rw (e, status_flags)
        (lookup-status_flags name rest
          (Dict.insert (strip (partition b':' line).0) (strip value) flags))
      ∙ ap (λ c. last_value name rest c) (value_some name line value flags e)
]

pub last_value-append :
    (name : Str) (xs ys : List Str) (current : Option Str)
    → last_value name (xs ++ ys) current ≡ last_value name ys (last_value name xs current)
unfolding last_value
last_value-append name [] ys current = refl
last_value-append name (x ∷ xs) ys current = last_value-append name xs ys (value_at name x current)

true-ne-false : true ≡ false → ⊥
true-ne-false h = cc

contains-ne :
    (name key : Str) (ns : List Str)
    → contains ns name ≡ true
    → contains ns key ≡ false
    → (name == key) ≡ false
contains-ne name key ns h k = elim (Bool-cases (name == key)) [
  | inl e ↦
      absurd (true-ne-false (sym h ∙ ap (λ n. contains ns n) ((list_beq_iff name key).0 e) ∙ k))
  | inr ne ↦ ne
]

-- Lines with other keys leave the value.
pub last_value-other :
    (name : Str) (ls : List Str) (current : Option Str)
    → contains flag_names name ≡ true
    → all other_key ls ≡ true
    → last_value name ls current ≡ current
unfolding last_value all
last_value-other name [] current h k = refl
last_value-other name (l ∷ ls) current h k =
    let ne = contains-ne name (strip (partition b':' l).0) flag_names h (ground (arith, k)) in
    let same : value_at name l current ≡ current = ground (arith, ne) in
    ap (λ c. last_value name ls c) same ∙ last_value-other name ls current h (ground (arith, k))

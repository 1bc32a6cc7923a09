-- ===== src/Auditor/Status.antt =====
-- The status of a system check, ordered by severity, and its names.
use secureblue.Base.{ℕ, ◌+◌, arith}
use secureblue.Base.{◌≡◌, ◌↔◌}
use secureblue.Base.{Bool, true, ◌&&◌, ◌||◌, if◌then◌else◌, ltb, leb}
use secureblue.Base.{Option, none, some, [], ◌∷◌}
use secureblue.Base.{Eq, ◌==◌, nat_eq, string_eq, list_eq, list_beq}
use secureblue.Base.{length}
use secureblue.Base.{Str, codes}

pub data Status : Type 0 where
  pass info warn fail unknown : Status

abbrev pub value : Status → ℕ
value pass = 0
value info = 1
value warn = 2
value fail = 3
value unknown = 4

pub status_beq_iff : (a b : Status) → ((value a == value b) ≡ true) ↔ (a ≡ b)
status_beq_iff a b = ground arith

instance abbrev pub status_eq : Eq Status
status_eq = record { beq = λ a b. value a == value b; beq_iff = status_beq_iff }

-- `max(self, other, key=…)` gives the first of two that are equal.
unfoldable pub downgrade_to : Status → Status → Status
downgrade_to self other = if ltb (value self) (value other) then other else self

-- The msgids of the names, which `translate` (gettext) localizes.
unfoldable pub msgid : Status → Str
msgid pass = codes "PASS"
msgid info = codes "INFO"
msgid warn = codes "WARN"
msgid fail = codes "FAIL"
msgid unknown = codes "UNKNOWN"

-- `str.casefold` on ASCII
unfoldable pub casefold : Str → Str
casefold [] = []
casefold (c ∷ cs) = (if leb b'A' c && leb c b'Z' then c + 32 else c) ∷ casefold cs

module _ (translate : Str → Str) where
  unfoldable pub local_name : Status → Str
  unfolding msgid
  local_name s = translate (msgid s)

  unfoldable pub is_named : Str → Status → Bool
  unfolding local_name casefold list_beq
  is_named s status = s == casefold (msgid status) || s == casefold (local_name status)

  -- `none` is the ValueError.
  unfoldable pub from_str : Str → Option Status
  unfolding is_named
  from_str s_orig =
      let s = casefold s_orig in
      if is_named s pass
      then some pass
      else if is_named s info
      then some info
      else if is_named s warn
      then some warn
      else if is_named s fail
      then some fail
      else if is_named s unknown
      then some unknown
      else none

  unfoldable pub width : Status → ℕ
  unfolding local_name
  width s = length (local_name s)

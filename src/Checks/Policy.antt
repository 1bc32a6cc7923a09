-- ===== src/Checks/Policy.antt =====
-- The analysis of containers-policy.json of audit_utils/containers.py and the check of it.
use secureblue.Base.{Bool, true, false, if◌then◌else◌}
use secureblue.Base.{Option, none, some, List, [], ◌∷◌, ◌++◌}
use secureblue.Base.{◌==◌, nat_eq, string_eq, list_eq, list_beq, contains}
use secureblue.Base.Exec.{Result, ok, err}
use secureblue.Base.{Str, codes}
use secureblue.Checks.State.{CheckError, attribute_error, type_error, policy_error, os_error}
use secureblue.Checks.State.{Opened, contents}
use secureblue.Checks.Kernel.{sort}

-- What json.load returns; a number is its literal, and the keys of an object are distinct.
mutual
  pub data Json : Type 0 where
    null : Json
    boolean : Bool → Json
    number : Str → Json
    text : Str → Json
    array : Elements → Json
    object : Members → Json

  pub data Elements : Type 0 where
    no_elements : Elements
    element : Json → Elements → Elements

  pub data Members : Type 0 where
    no_members : Members
    member : Str → Json → Members → Members

unfoldable pub get : Str → Members → Option Json
unfolding list_beq
get k no_members = none
get k (member k' v rest) = let found = get k rest in if k == k' then some v else found

unfoldable pub secure_types : List Str
secure_types = codes "reject" ∷ codes "signedBy" ∷ codes "sigstoreSigned" ∷ []

unfoldable pub is_secure_type : Json → Bool
unfolding secure_types contains list_beq
is_secure_type (text t) = contains secure_types t
is_secure_type _ = false

-- `req["type"] in …`: the KeyError and the TypeError become the policy error.
unfoldable pub requirement_secure : Json → Result CheckError Bool
unfolding get is_secure_type
requirement_secure (object ms) = elim (get (codes "type") ms) [
  | none ↦ err policy_error
  | some t ↦ ok (is_secure_type t)
]
requirement_secure _ = err policy_error

-- `any` stops at the first requirement that is secure.
unfoldable pub any_secure : Elements → Result CheckError Bool
unfolding requirement_secure
any_secure no_elements = ok false
any_secure (element req rest) =
    let more = any_secure rest in
    elim (requirement_secure req) [ err e ↦ err e | ok true ↦ ok true | ok false ↦ more ]

-- The keys of an object and the characters of a text are texts, which have no "type".
unfoldable pub policy_requirements_secure : Json → Result CheckError Bool
unfolding any_secure
policy_requirements_secure (array es) = any_secure es
policy_requirements_secure (object no_members) = ok false
policy_requirements_secure (text []) = ok false
policy_requirements_secure _ = err policy_error

pub record TransportPolicyAudit : Type 0 where
  pub default_secure : Bool
  pub insecure_scopes : List Str

-- A turn of the loop of TransportPolicyAudit.from_data, once the requirements are judged
unfoldable pub scope_step : Str → Bool → TransportPolicyAudit → TransportPolicyAudit
unfolding list_beq
scope_step scope secure t =
    if scope == []
    then record t { default_secure = secure }
    else if secure
    then t
    else record t { insecure_scopes = t.insecure_scopes ++ (scope ∷ []) }

unfoldable pub audit_scopes :
    Members → TransportPolicyAudit → Result CheckError TransportPolicyAudit
unfolding policy_requirements_secure scope_step
audit_scopes no_members t = ok t
audit_scopes (member scope scope_policy rest) t = elim (policy_requirements_secure scope_policy) [
  | err e ↦ err e
  | ok secure ↦ audit_scopes rest (scope_step scope secure t)
]

unfoldable pub sorted_scopes : TransportPolicyAudit → TransportPolicyAudit
unfolding sort
sorted_scopes t = record t { insecure_scopes = sort t.insecure_scopes }

unfoldable pub transport_from_data : Json → Result CheckError TransportPolicyAudit
unfolding audit_scopes sorted_scopes
transport_from_data (object scopes) =
    elim (audit_scopes scopes (record { default_secure = true; insecure_scopes = [] })) [
      | err e ↦ err e
      | ok t ↦ ok (sorted_scopes t)
    ]
transport_from_data _ = err attribute_error

pub record ContainersPolicyAudit : Type 0 where
  pub default_secure : Bool
  pub transports : List (Str × TransportPolicyAudit)

unfoldable pub audit_transports : Members → Result CheckError (List (Str × TransportPolicyAudit))
unfolding transport_from_data
audit_transports no_members = ok []
audit_transports (member name scopes rest) =
    let more = audit_transports rest in
    elim (transport_from_data scopes) [
      | err e ↦ err e
      | ok t ↦ elim more [ err e ↦ err e | ok ts ↦ ok ((name, t) ∷ ts) ]
    ]

unfoldable pub transports_of : Option Json → Result CheckError (List (Str × TransportPolicyAudit))
unfolding audit_transports
transports_of none = ok []
transports_of (some (object ms)) = audit_transports ms
transports_of (some _) = err attribute_error

-- Indexing anything but an object by "default" is a TypeError.
unfoldable pub policy_from_data : Json → Result CheckError ContainersPolicyAudit
unfolding get policy_requirements_secure transports_of
policy_from_data (object policy) = elim (get (codes "default") policy) [
  | none ↦ err policy_error
  | some default ↦ elim (policy_requirements_secure default) [
    | err e ↦ err e
    | ok default_secure ↦ elim (transports_of (get (codes "transports") policy)) [
      | err e ↦ err e
      | ok ts ↦ ok (record { default_secure = default_secure; transports = ts })
    ]
  ]
]
policy_from_data _ = err type_error

-- A file is what json.load makes of it, or `none` for a JSONDecodeError.
unfoldable pub policy_from_file : Opened (Option Json) → Result CheckError ContainersPolicyAudit
unfolding policy_from_data
policy_from_file (contents (some policy)) = policy_from_data policy
policy_from_file (contents none) = err policy_error
policy_from_file _ = err os_error

-- The files that exist, and what reading one of them comes to
pub record PolicyFiles : Type 0 where
  pub user_policy_file : Str
  pub exists : Str → Bool
  pub read : Str → Opened (Option Json)

abbrev pub distro_policy_file : Str
distro_policy_file = codes "/usr/share/containers/policy.json"

abbrev pub system_policy_file : Str
system_policy_file = codes "/etc/containers/policy.json"

unfoldable pub active_policy_file : PolicyFiles → Str
active_policy_file files =
    if files.exists files.user_policy_file
    then files.user_policy_file
    else if files.exists system_policy_file
    then system_policy_file
    else distro_policy_file

unfoldable pub analyze_active_container_policy :
    PolicyFiles → Result CheckError (ContainersPolicyAudit × Str)
unfolding active_policy_file policy_from_file
analyze_active_container_policy files =
    let active = active_policy_file files in
    elim (policy_from_file (files.read active)) [ err e ↦ err e | ok a ↦ ok (a, active) ]

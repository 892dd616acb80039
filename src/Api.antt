-- ===== src/Api.antt =====
-- What the API server of packages/api asks of the outside: the `User`, `Group` and `ChangeRequest`
-- objects and the objects that a change is about, through the client of packages/k8s-client; the Secret
-- with the hashes of passwords, and the hashing itself; the ConfigMap with the settings. The calls go
-- out under the identity of the server itself.
use a5e.Effects
unfoldable pub use a5e.Effects.{pure, throw, try_catch, attempt, continue, ◌>>=◌, ◌>>◌, call, now}
use a5e.Base.{String, Bool, Option, List, ◌==◌, option_eq, nat_eq, some}
use a5e.Base.Dict.{Dict}
use a5e.Base.Result.{Failure}
use a5e.Descriptors.{Descriptor}
use a5e.Permissions.{Group, Permission}
use a5e.Users.{UserCr, UserSpec, UserPatch}
use a5e.ChangeRequests.{Body, ChangeRequest, ChangeRequestSpec, ReviewStatus}

-- The body of a merge patch: its `metadata.labels`, where `none` is a `null`, and the rest as a text.
pub record PatchBody : Type 0 where
  pub labels : Option (Dict String (Option String))
  pub json : String

pub data Call : Type 0 where
  get_group delete_group_object : (name : String) → Call
  replace_group create_group : (name : String) (permissions : List Permission) → Call
  patch_settings create_settings : (enabled : Option String) → Call
  get_user : (name : String) → Call
  list_users : Call
  create_user : (name : String) (spec : UserSpec) → Call
  patch_user : (name : String) (patch : UserPatch) → Call
  delete_user : (name : String) → Call
  list_groups : Call
  read_password_secret : Call
  replace_password_secret create_password_secret : (hashes : Dict String String) → Call
  hash_password : (password : String) → Call
  verify_hash : (password hash : String) → Call
  read_settings : Call
  get_change_request : (name : String) → Call
  create_change_request :
      (name : Option String) (generate_name : String) (spec : ChangeRequestSpec) → Call
  delete_change_request : (name : String) → Call
  patch_change_status : (name : String) (status : ReviewStatus) → Call
  create_object : (descriptor : Descriptor) (body : Option Body) (namespace : Option String) → Call
  patch_object :
      (descriptor : Descriptor) (name : Option String) (body : Option Body)
      (namespace : Option String)
      → Call
  delete_object : (descriptor : Descriptor) (name namespace : Option String) → Call
  get_object : (descriptor : Descriptor) (name : String) (namespace : Option String) → Call
  replace_object :
      (descriptor : Descriptor) (name : String) (body : Body) (namespace : Option String) → Call
  merge_object :
      (descriptor : Descriptor) (name : String) (patch : PatchBody) (namespace : Option String)
      → Call

-- The hashes are none where the Secret has no such key, the setting is none where the ConfigMap has none.
abbrev pub Reply : Call → Type 0
Reply (get_user _) = UserCr
Reply list_users = List UserCr
Reply (create_user _ _) = Unit
Reply (patch_user _ _) = Unit
Reply (delete_user _) = Unit
Reply list_groups = List Group
Reply read_password_secret = Option (Dict String String)
Reply (replace_password_secret _) = Unit
Reply (create_password_secret _) = Unit
Reply (hash_password _) = String
Reply (verify_hash _ _) = Bool
Reply read_settings = Option String
Reply (get_change_request _) = ChangeRequest
Reply (create_change_request _ _ _) = Unit
Reply (delete_change_request _) = Unit
Reply (patch_change_status _ _) = Unit
Reply (create_object _ _ _) = Unit
Reply (patch_object _ _ _ _) = Unit
Reply (delete_object _ _ _) = Unit
Reply (get_group _) = Group
Reply (delete_group_object _) = Unit
Reply (replace_group _ _) = Unit
Reply (create_group _ _) = Unit
Reply (patch_settings _) = Unit
Reply (create_settings _) = Unit
Reply (get_object _ _ _) = Body
Reply (replace_object _ _ _ _) = Unit
Reply (merge_object _ _ _ _) = Unit

abbrev pub Server : Type 0 → Type 0
Server W = Effects.Server Call Reply W

abbrev pub Trace : Type 0 → Type 0
Trace W = Effects.Trace Call W

abbrev pub Act : Type 0 → Type 0 → Type 0
Act W A = Effects.Act Call W A

-- `(err as { code?: number }).code === 404`
abbrev pub is_not_found : Failure → Bool
is_not_found e = e.code == some 404

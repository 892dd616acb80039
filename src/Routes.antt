-- ===== src/Routes.antt =====
-- packages/api/src/modules/resource-routes.ts: the routes of one kind that read, create, replace, patch and
-- delete an object, over the client of packages/k8s-client/src/customResourceClient.ts. What the server
-- returns of a write is left out. The routes that list and watch are not here.
pub mod Reads
pub mod Gates
use a5e.Base.{ℕ, String, Bool, true, false, ◌&&◌, Option, none, some, List, if◌then◌else◌}
use a5e.Base.Result.{Result, ok, err}
use a5e.Labels.{Labels}
use a5e.Descriptors.{Descriptor, Scope, namespaced, cluster}
use a5e.Permissions.{AppRole, user, Permission, ActionTarget, can_act, merged_labels_after_patch}
use a5e.Sessions.{Session, Stores}
use a5e.Access.{
  Authorized, refused, unauthorized, granted, authorize, resolve_effective_permissions,
}
use a5e.ChangeRequests.{Body}
use a5e.ChangeRequests.Items.{request_namespace}
use a5e.Api.{
  Server, Act, PatchBody, call, throw, pure, ◌>>=◌, create_object, delete_object, get_object,
  replace_object, merge_object,
}

pub data Answer : Type 0 where
  error_answer : (status : ℕ) (error : String) → Answer
  forbidden_answer : (type : String) (namespace : Option String) (action : String) → Answer
  object_answer : Body → Answer
  created_answer updated_answer deleted_answer : Answer

-- `isNamespaced ? params.namespace : undefined`
unfoldable pub route_namespace : Descriptor → String → Option String
route_namespace d namespace = elim d.scope [ namespaced ↦ some namespace | cluster ↦ none ]

abbrev pub target : Descriptor → Option String → Option Labels → ActionTarget
target d namespace labels = record { type = d.kind; namespace = namespace; labels = labels }

module _ {W : Type 0} (srv : Server W) where
  -- The guard of the client's methods: a namespaced kind needs a namespace.
  unfoldable pub in_namespace :
      {A : Type 0} → Result (Option String) → (Option String → Act W A) → Act W A
  in_namespace (ok namespace) f = f namespace
  in_namespace (err e) f = throw e

  unfoldable pub get_current : Descriptor → Option String → String → Act W Body
  unfolding in_namespace
  get_current d namespace name =
      in_namespace (request_namespace d namespace) (λ n. call srv (get_object d name n))

  unfoldable pub create_in : Descriptor → Option String → Body → Act W Answer
  unfolding in_namespace
  create_in d namespace body =
      in_namespace (request_namespace d namespace)
        (λ n. call srv (create_object d (some body) n) >>= λ _. pure created_answer)

  unfoldable pub replace_in : Descriptor → Option String → String → Body → Act W Answer
  unfolding in_namespace
  replace_in d namespace name body =
      in_namespace (request_namespace d namespace)
        (λ n. call srv (replace_object d name body n) >>= λ _. pure updated_answer)

  unfoldable pub merge_in : Descriptor → Option String → String → PatchBody → Act W Answer
  unfolding in_namespace
  merge_in d namespace name patch =
      in_namespace (request_namespace d namespace)
        (λ n. call srv (merge_object d name patch n) >>= λ _. pure updated_answer)

  unfoldable pub delete_in : Descriptor → Option String → String → Act W Answer
  unfolding in_namespace
  delete_in d namespace name =
      in_namespace (request_namespace d namespace)
        (λ n. call srv (delete_object d (some name) n) >>= λ _. pure deleted_answer)

  unfoldable pub answered : Authorized → (Session → AppRole → Act W Answer) → Act W Answer
  answered unauthorized handler = pure (error_answer 401 "unauthorized")
  answered (refused error) handler = pure (error_answer 403 error)
  answered (granted session role) handler = handler session role

  -- The gate of every route.
  unfoldable pub gated : Stores → Option String → (Session → AppRole → Act W Answer) → Act W Answer
  unfolding answered
  gated stores token handler = authorize srv stores token user >>= λ auth. answered auth handler

  -- `if (!canAct(…)) return forbidden(…)`
  unfoldable pub permitted :
      Bool → Descriptor → Option String → String → Act W Answer → Act W Answer
  permitted allowed d namespace action act =
      if allowed then act else pure (forbidden_answer d.kind namespace action)

  unfoldable pub get_route : Descriptor → Stores → Option String → String → String → Act W Answer
  unfolding route_namespace gated get_current permitted
  get_route d stores token namespace name =
      let ns = route_namespace d namespace in
      gated stores token (λ session role. get_current d ns name >>= λ object.
      resolve_effective_permissions srv session role >>= λ perms.
      permitted (can_act perms (target d ns object.labels) "get") d ns "get"
        (pure (object_answer object)))

  unfoldable pub create_route : Descriptor → Stores → Option String → String → Body → Act W Answer
  unfolding route_namespace gated create_in permitted
  create_route d stores token namespace body =
      let ns = route_namespace d namespace in
      gated stores token (λ session role.
        resolve_effective_permissions srv session role >>= λ perms.
        permitted (can_act perms (target d ns body.labels) "create") d ns "create"
          (create_in d ns body))

  -- `canAct` before and after an update.
  abbrev pub may_update :
      List Permission → Descriptor → Option String → Option Labels → Option Labels → Bool
  may_update perms d namespace current desired =
      can_act perms (target d namespace current) "update"
      && can_act perms (target d namespace desired) "update"

  unfoldable pub replace_route :
      Descriptor → Stores → Option String → String → String → Body → Act W Answer
  unfolding route_namespace gated get_current replace_in permitted
  replace_route d stores token namespace name body =
      let ns = route_namespace d namespace in
      gated stores token (λ session role. get_current d ns name >>= λ current.
      resolve_effective_permissions srv session role >>= λ perms.
      permitted (may_update perms d ns current.labels body.labels) d ns "update"
        (replace_in d ns name body))

  unfoldable pub patch_route :
      Descriptor → Stores → Option String → String → String → PatchBody → Act W Answer
  unfolding route_namespace gated get_current merge_in permitted merged_labels_after_patch
  patch_route d stores token namespace name patch =
      let ns = route_namespace d namespace in
      gated stores token (λ session role. get_current d ns name >>= λ current.
      resolve_effective_permissions srv session role >>= λ perms.
      permitted
        (may_update perms d ns current.labels
          (merged_labels_after_patch current.labels patch.labels))
        d ns "update" (merge_in d ns name patch))

  unfoldable pub delete_route : Descriptor → Stores → Option String → String → String → Act W Answer
  unfolding route_namespace gated get_current delete_in permitted
  delete_route d stores token namespace name =
      let ns = route_namespace d namespace in
      gated stores token (λ session role. get_current d ns name >>= λ current.
      resolve_effective_permissions srv session role >>= λ perms.
      permitted (can_act perms (target d ns current.labels) "delete") d ns "delete"
        (delete_in d ns name))

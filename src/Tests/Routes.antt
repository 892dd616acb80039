-- ===== src/Tests/Routes.antt =====
-- packages/api/src/modules/resource-routes.ts at concrete inputs.
use a5e.Base.{none, some, [], ◌∷◌}
use a5e.Descriptors.{Descriptor, namespaced}
use a5e.Sessions.{local, Stores}
use a5e.ChangeRequests.{Body}
use a5e.Api.{PatchBody, Trace}

abbrev hosts : Descriptor
hosts = record {
  kind = "AnsibleHost";
  plural = "ansiblehosts";
  singular = "ansiblehost";
  scope = namespaced;
  paired_with = some "ClusterAnsibleHost";
}

abbrev pub logged_in : Stores
logged_in = record {
  sessions =
      (
        "token-1",
        record {
          kind = local;
          impersonate_user = "local:alice";
          impersonate_groups = none;
          display_name = "Alice";
        },
      )
      ∷ [];
  pending_logins = [];
}

abbrev web : Body
web = record { labels = some (("team", "a") ∷ []); json = "{}" }

abbrev unlabel : PatchBody
unlabel = record { labels = some (("team", none) ∷ []); json = "{}" }

abbrev pub begin : Trace (Unit {0})
begin = record { world = tt; calls = [] }

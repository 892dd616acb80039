-- ===== src/Tests/Settings.antt =====
-- The routes of the settings, in packages/api/src/modules/users-settings.ts, permissions-settings.ts and
-- app-settings.ts, at concrete inputs.
use a5e.Base.{false, none, some, []}
use a5e.Base.Result.{ok}
use a5e.Users.Admin.{list_users, delete_user}
use a5e.Api.{call, pure, ◌>>=◌, list_groups}
use a5e.Settings.{users_answer, groups_answer, deleted_answer, NewUser, UserEdit, readable, absent}
use a5e.Settings.Routes.{
  create_account, edit_user, put_group, delete_group, put_settings, list_users_route,
  create_user_route, update_user_route, delete_user_route, list_groups_route, put_group_route,
  delete_group_route, put_settings_route,
}
use a5e.Settings.Admins.{AdminOnly, settings-AdminOnly}
use a5e.Tests.Users.{server}
use a5e.Tests.Routes.{logged_in, begin}

abbrev carol : NewUser
carol = record {
  username = some " carol ";
  password = some "secret";
  email = none;
  display_name = none;
  impersonate_groups = none;
  role = some "user";
}

abbrev promote_carol : UserEdit
promote_carol = record {
  username = none;
  role = some "admin";
  email = none;
  display_name = none;
  impersonate_groups = none;
  password = none;
  permissions = absent;
}

settings-AdminOnly_example :
    AdminOnly server logged_in
      (some "token-1")
      (list_users server >>= λ users. pure (users_answer users))
      begin
      (list_users_route server logged_in (some "token-1") begin)
    × AdminOnly server logged_in
        (some "token-1")
        (create_account server carol)
        begin
        (create_user_route server logged_in (some "token-1") carol begin)
    × AdminOnly server logged_in
        (some "token-1")
        (edit_user server "local:carol" promote_carol)
        begin
        (update_user_route server logged_in (some "token-1") "local:carol" promote_carol begin)
    × AdminOnly server logged_in
        (some "token-1")
        (delete_user server "local:carol" >>= λ _. pure deleted_answer)
        begin
        (delete_user_route server logged_in (some "token-1") "local:carol" begin)
    × AdminOnly server logged_in
        (some "token-1")
        (call server list_groups >>= λ groups. pure (groups_answer groups))
        begin
        (list_groups_route server logged_in (some "token-1") begin)
    × AdminOnly server logged_in
        (some "token-1")
        (put_group server "ops" (readable []))
        begin
        (put_group_route server logged_in (some "token-1") "ops" (readable []) begin)
    × AdminOnly server logged_in
        (some "token-1")
        (delete_group server "ops" >>= λ _. pure deleted_answer)
        begin
        (delete_group_route server logged_in (some "token-1") "ops" begin)
    × AdminOnly server logged_in
        (some "token-1")
        (put_settings server (ok (some false)))
        begin
        (put_settings_route server logged_in (some "token-1") (ok (some false)) begin)
settings-AdminOnly_example =
    settings-AdminOnly server logged_in (some "token-1") "local:carol" "ops" carol promote_carol
      (readable []) (ok (some false)) begin

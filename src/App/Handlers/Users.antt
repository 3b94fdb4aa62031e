-- ===== src/App/Handlers/Users.antt =====
-- application/src/UserHandler.cpp.
use c_cloud_storage.Prelude.{List, [], ◌∷◌, if◌then◌else◌, bytes, is_empty}
use c_cloud_storage.Prelude.Number.{ℤ, pos}
use c_cloud_storage.Tcp.Buffer.{◌>>=◌}
use c_cloud_storage.Http.Request.{get_path_param}
use c_cloud_storage.App.World.{
  World, Json, Items, number, text, array, object, end, item, no_more, member,
}
use c_cloud_storage.App.Database.Users.{UserRow, search_by_username_keyword_excluding}
use c_cloud_storage.App.Exchange.{
  Exchange, Answer, with_session, refuse, reply, send_error, send_json,
}

unfoldable pub user_items : List UserRow → Items
user_items [] = end
user_items (u ∷ users) =
    item
      (object (
        member (bytes "id") (number u.id) (
          member (bytes "username") (text u.username)
            (member (bytes "email") (text u.email) no_more))))
      (user_items users)

module _ {ℓ} {W : Type ℓ} (world : World W) where
  abbrev pub users_json : List UserRow → Json
  users_json users = object (
      member (bytes "code") (number (pos 0)) (
        member (bytes "message") (text (bytes "Success"))
          (member (bytes "users") (array (user_items users)) no_more)))

  unfoldable pub search_users : ℤ → Exchange W → Answer W
  unfolding get_path_param search_by_username_keyword_excluding user_items send_error send_json
  search_users user_id x =
      let keyword = get_path_param (bytes "keyword") x.request in
      if is_empty keyword then refuse world (bytes "搜索关键词不能为空") 400 x else (do
        users ← search_by_username_keyword_excluding world keyword user_id (pos 10) x.db
        reply world (users_json users) x)

  unfoldable pub handle_search_users : Exchange W → Answer W
  unfolding with_session search_users
  handle_search_users x = with_session world search_users x

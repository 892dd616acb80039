-- ===== src/Users/Passwords.antt =====
-- packages/api/src/auth/user-passwords.ts: the one place that reads and writes the hashes of passwords.
-- A username is looked up among the Secret's own keys.
use a5e.Base.{
  String, Bool, true, false, Option, none, some, List, [], ◌∷◌, map, if◌then◌else◌, string_eq,
  nat_eq, option_eq,
}
use a5e.Base.Dict
use a5e.Base.Dict.{Dict}
use a5e.Labels.{or_default}
use a5e.Users.Names.{claimed}
use a5e.Api.{
  Server, Act, call, throw, try_catch, pure, ◌>>=◌, is_not_found, read_password_secret,
  replace_password_secret, create_password_secret, hash_password, verify_hash,
}

abbrev pub Hashes : Type 0
Hashes = Dict String String

module _ {W : Type 0} (srv : Server W) where
  unfoldable pub read_hashes : Act W Hashes
  read_hashes =
      try_catch (do hashes ← call srv read_password_secret; pure (or_default [] hashes))
        (λ e. if is_not_found e then pure [] else throw e)

  unfoldable pub write_hashes : Hashes → Act W Unit
  write_hashes hashes =
      try_catch (call srv (replace_password_secret hashes))
        (λ e. if is_not_found e then call srv (create_password_secret hashes) else throw e)

  is_set : Option String → Bool
  is_set none = false
  is_set (some hash) = true

  unfoldable pub has_password_hash : String → Act W Bool
  unfolding Dict.lookup claimed is_set
  has_password_hash username = do
    hashes ← read_hashes
    pure (is_set (claimed (Dict.lookup username hashes)))

  unfoldable pub list_usernames_with_password : Act W (List String)
  list_usernames_with_password = do
    hashes ← read_hashes
    pure (map (λ (username, hash). username) hashes)

  unfoldable pub set_password_hash : String → String → Act W Unit
  unfolding Dict.insert
  set_password_hash username password = do
    hashes ← read_hashes
    hash ← call srv (hash_password password)
    write_hashes (Dict.insert username hash hashes)

  merged : Hashes → Hashes → Hashes
  unfolding Dict.insert
  merged existing [] = existing
  merged existing ((username, hash) ∷ rest) = merged (Dict.insert username hash existing) rest

  unfoldable pub set_password_hashes_direct : Hashes → Act W Unit
  unfolding merged
  set_password_hashes_direct [] = pure tt
  set_password_hashes_direct (h ∷ hs) = do
    existing ← read_hashes
    write_hashes (merged existing (h ∷ hs))

  unfoldable pub delete_password_hash : String → Act W Unit
  unfolding Dict.has Dict.erase
  delete_password_hash username = do
    hashes ← read_hashes
    if Dict.has username hashes then write_hashes (Dict.erase username hashes) else pure tt

  verify_with : String → Option String → Act W Bool
  verify_with password none = pure false
  verify_with password (some hash) = call srv (verify_hash password hash)

  unfoldable pub verify_password : String → String → Act W Bool
  unfolding verify_with Dict.lookup claimed
  verify_password username password = do
    hashes ← read_hashes
    verify_with password (claimed (Dict.lookup username hashes))

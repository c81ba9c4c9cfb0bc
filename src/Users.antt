-- ===== src/Users.antt =====
-- src/user.cpp, include/user.h, src/server.cpp and include/server.h: the users who are logged in.
-- `user_cont` is an unordered map; the list below is in the order in which it is iterated.
pub mod Laws
use pocker_backend.Base.{
  ℕ, List, [], ◌∷◌, Bool, true, false, Option, none, some, ◌==◌, if◌then◌else◌,
}
use pocker_backend.Base.Bytes.{Bytes}

pub record User : Type 0 where
  pub nickname : Bytes
  pub email : Bytes
  pub id : ℕ
  -- the address of the `tcp_connection`
  pub connection : ℕ

-- `user(id, conn)`
abbrev pub user : ℕ → ℕ → User
user id conn = record { nickname = []; email = []; id = id; connection = conn }

abbrev pub UserCont : Type 0
UserCont = List (ℕ × User)

-- `users_[id] = user`
set_user : ℕ → User → UserCont → UserCont
set_user id u [] = (id, u) ∷ []
set_user id u ((k, v) ∷ users) = if k == id then (k, u) ∷ users else (k, v) ∷ set_user id u users

-- `server::add_user`
unfoldable pub add_user : User → UserCont → UserCont
unfolding set_user
add_user u users = set_user u.id u users

-- `server::get_user(size_t)`
unfoldable pub get_user : ℕ → UserCont → Option User
get_user id [] = none
get_user id ((k, v) ∷ users) = if k == id then some v else get_user id users

-- `server::get_user(const user_pred&)`
unfoldable pub find_user : (User → Bool) → UserCont → Option User
find_user pred [] = none
find_user pred ((k, v) ∷ users) = if pred v then some v else find_user pred users

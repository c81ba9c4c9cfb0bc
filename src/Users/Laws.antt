-- ===== src/Users/Laws.antt =====
-- The users as a map from ids.
use pocker_backend.Base.{
  ℕ, ◌≡◌, refl, [], ◌∷◌, Bool, true, false, none, some, ◌==◌, if◌then◌else◌, arith,
}
use pocker_backend.Users.{User, UserCont, set_user, add_user, get_user, find_user}

-- Each user stands under its own id, and no id stands twice.
abbrev pub IsKeyed : UserCont → Type 0
IsKeyed [] = Unit
IsKeyed ((k, v) ∷ users) = (v.id ≡ k) × (get_user k users ≡ none) × IsKeyed users

get_user-set_user :
    (id j : ℕ) (u : User) (users : UserCont)
    → get_user j (set_user id u users) ≡ (if id == j then some u else get_user j users)
unfolding get_user set_user
get_user-set_user id j u [] = refl
get_user-set_user id j u ((k, v) ∷ users) = ground (arith, get_user-set_user id j u users)

-- After `add_user` the id leads to the new user, which replaces an older one, and every other id
-- leads where it did.
pub get_user-add_user :
    (u : User) (j : ℕ) (users : UserCont)
    → get_user j (add_user u users) ≡ (if u.id == j then some u else get_user j users)
unfolding add_user
get_user-add_user u j users = get_user-set_user u.id j u users

set_user-IsKeyed : (u : User) (users : UserCont) → IsKeyed users → IsKeyed (set_user u.id u users)
unfolding set_user get_user
set_user-IsKeyed u [] h = (refl, refl, tt)
set_user-IsKeyed u ((k, v) ∷ users) h =
    ground (arith, set_user-IsKeyed u users h.2, get_user-set_user u.id k u users)

-- Adding a user to a keyed map gives a keyed map.
pub add_user-IsKeyed : (u : User) (users : UserCont) → IsKeyed users → IsKeyed (add_user u users)
unfolding add_user
add_user-IsKeyed u users h = set_user-IsKeyed u users h

-- On a keyed map, a user that the search by a predicate returns satisfies it, and stands under its id.
pub find_user_sound :
    (pred : User → Bool) (users : UserCont) (u : User)
    → IsKeyed users
    → find_user pred users ≡ some u
    → (pred u ≡ true) × (get_user u.id users ≡ some u)
unfolding find_user get_user
find_user_sound pred [] u h e = ground arith
find_user_sound pred ((k, v) ∷ users) u h e = ground (arith, find_user_sound pred users u h.2)

-- When the search by a predicate finds none, no user of the map satisfies it.
pub find_user_complete :
    (pred : User → Bool) (users : UserCont) (id : ℕ) (u : User)
    → find_user pred users ≡ none
    → get_user id users ≡ some u
    → pred u ≡ false
unfolding find_user get_user
find_user_complete pred [] id u h e = cc
find_user_complete pred ((k, v) ∷ users) id u h e =
    ground (arith, find_user_complete pred users id u)

-- ===== src/Api/RequestTrip.antt =====
-- A request that is written by `to_json` arrives: its text parses, its `type` is the one that the
-- handler looks for, and `from_json` gives the request back.
use pocker_backend.Base.{◌%◌, ◌^◌, ◌≡◌, refl, ◌∷◌, [], length, take}
use pocker_backend.Base.Bytes.{Bytes, c_str, beq, codes}
use pocker_backend.Base.Results.{Result, ok}
use pocker_backend.Rapidjson.{Rapidjson, Fields, text, render, IsFaithful}
use pocker_backend.Json
use pocker_backend.Api.Requests.{
  register_of, login_of, unregister_of, register_request, login_request, unregister_request,
  register_request_type, login_request_type, unregister_request_type, read_register, read_login,
  read_unregister, register_to_json, login_to_json, unregister_to_json,
}
use pocker_backend.Api.Rendered.{IsShort, take_short, finish_clean, parse-render, string-render}

-- The text parses to a document with this `type`, of which `read` makes `r`.
abbrev pub Arrives :
    (R : Rapidjson) {A : Type 0} → Bytes → Bytes → (R.Document → Result A) → A → Type 0
Arrives R s type read r =
    (d : R.Document) × (Json.parse R s ≡ ok d)
    × (Json.value_as_string R d (codes "type") ≡ ok type)
    × (read d ≡ ok r)

abbrev register_fields : Bytes → Bytes → Bytes → Fields
register_fields nickname email pass_hash =
    (codes "type", text (codes "register_request"))
    ∷ (codes "email", text email)
    ∷ (codes "nickname", text nickname)
    ∷ (codes "pass_hash", text pass_hash)
    ∷ []

-- `login_request` and `unregister_request` have the same fields.
abbrev login_fields : Bytes → Bytes → Bytes → Fields
login_fields type email pass_hash =
    (codes "type", text type)
    ∷ (codes "email", text email)
    ∷ (codes "pass_hash", text pass_hash)
    ∷ []

module _ (R : Rapidjson) (laws : IsFaithful R) where
  -- A login and an unregister request are written with the same fields.
  login_render :
      (type email pass_hash : Bytes)
      → IsShort email
      → IsShort pass_hash
      → c_str (
          render R (
            login_fields type
              (take (length email % 2 ^ 32) email)
              (take (length pass_hash % 2 ^ 32) pass_hash)))
        ≡ render R (login_fields type email pass_hash)
  login_render type email pass_hash e p =
      rw (take_short email e, take_short pass_hash p)
        (finish_clean R laws (login_fields type email pass_hash))

  register_render :
      (nickname email pass_hash : Bytes)
      → IsShort nickname
      → IsShort email
      → IsShort pass_hash
      → c_str (
          render R (
            register_fields
              (take (length nickname % 2 ^ 32) nickname)
              (take (length email % 2 ^ 32) email)
              (take (length pass_hash % 2 ^ 32) pass_hash)))
        ≡ render R (register_fields nickname email pass_hash)
  register_render nickname email pass_hash n e p =
      rw (take_short nickname n, take_short email e, take_short pass_hash p)
        (finish_clean R laws (register_fields nickname email pass_hash))

  -- What `to_json` writes of a registration with fields below 2^32 bytes arrives as that registration:
  -- it parses, has the type that the handler looks for, and `from_json` gives the fields back.
  pub register_request-Arrives :
      (nickname email pass_hash : Bytes)
      → IsShort nickname
      → IsShort email
      → IsShort pass_hash
      → Arrives R
          (register_to_json R (register_of nickname email pass_hash))
          register_request_type.val
          (λ d. read_register R d register_request)
          (register_of nickname email pass_hash)
  unfolding register_to_json read_register beq c_str
  register_request-Arrives nickname email pass_hash n e p =
      let fields = register_fields nickname email pass_hash in
      rw (register_render nickname email pass_hash n e p) (
        R.parse (render R fields),
        parse-render R laws fields,
        string-render R laws fields _ _ refl refl,
        rw (
          string-render R laws fields (codes "nickname") nickname refl refl,
          string-render R laws fields (codes "email") email refl refl,
          string-render R laws fields (codes "pass_hash") pass_hash refl refl,
        ),
      )

  -- What `to_json` writes of a login request with fields below 2^32 bytes arrives as that request.
  pub login_request-Arrives :
      (email pass_hash : Bytes)
      → IsShort email
      → IsShort pass_hash
      → Arrives R
          (login_to_json R (login_of email pass_hash))
          login_request_type.val
          (λ d. read_login R d login_request)
          (login_of email pass_hash)
  unfolding login_to_json read_login beq c_str
  login_request-Arrives email pass_hash e p =
      let fields = login_fields login_request_type.val email pass_hash in
      rw (login_render login_request_type.val email pass_hash e p) (
        R.parse (render R fields),
        parse-render R laws fields,
        string-render R laws fields _ _ refl refl,
        rw (
          string-render R laws fields (codes "email") email refl refl,
          string-render R laws fields (codes "pass_hash") pass_hash refl refl,
        ),
      )

  -- What `to_json` writes of an unregister request with fields below 2^32 bytes arrives as that
  -- request.
  pub unregister_request-Arrives :
      (email pass_hash : Bytes)
      → IsShort email
      → IsShort pass_hash
      → Arrives R
          (unregister_to_json R (unregister_of email pass_hash))
          unregister_request_type.val
          (λ d. read_unregister R d unregister_request)
          (unregister_of email pass_hash)
  unfolding unregister_to_json read_unregister beq c_str
  unregister_request-Arrives email pass_hash e p =
      let fields = login_fields unregister_request_type.val email pass_hash in
      rw (login_render unregister_request_type.val email pass_hash e p) (
        R.parse (render R fields),
        parse-render R laws fields,
        string-render R laws fields _ _ refl refl,
        rw (
          string-render R laws fields (codes "email") email refl refl,
          string-render R laws fields (codes "pass_hash") pass_hash refl refl,
        ),
      )

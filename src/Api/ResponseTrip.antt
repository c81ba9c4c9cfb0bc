-- ===== src/Api/ResponseTrip.antt =====
-- A response that is written by `to_json` is read back by `from_json`.
use pocker_backend.Base.{ℕ, ◌%◌, ◌^◌, ◌<◌, ◌≤◌, ◌≡◌, refl, ◌∷◌, [], length, take, arith}
use pocker_backend.Base.Bytes.{Bytes, c_str, beq, codes}
use pocker_backend.Rapidjson.{Rapidjson, Fields, text, number, render, IsFaithful}
use pocker_backend.Message.{max_body_length}
use pocker_backend.Api.Codes.{
  register_code, login_code, unregister_code, size_of_register, size_of_login, size_of_unregister,
}
use pocker_backend.Api.Responses.{
  response_of, register_response, login_response, unregister_response, register_response_type,
  login_response_type, unregister_response_type, read_register_response, read_login_response,
  read_unregister_response, register_response_to_json, login_response_to_json,
  unregister_response_to_json,
}
use pocker_backend.Api.Rendered.{
  IsShort, take_short, finish_clean, parse-render, string-render, size-render,
}
use pocker_backend.Api.RequestTrip.{Arrives}

abbrev response_fields : Bytes → Bytes → ℕ → Fields
response_fields type message code =
    (codes "type", text type) ∷ (codes "message", text message) ∷ (codes "code", number code) ∷ []

-- A cast code below 2^31 is cast back to its number.
register_code_trip : (k : ℕ) → k < 2 ^ 31 → size_of_register (register_code k) ≡ k
unfolding register_code
register_code_trip k h = ground arith

login_code_trip : (k : ℕ) → k < 2 ^ 31 → size_of_login (login_code k) ≡ k
unfolding login_code
login_code_trip k h = ground arith

unregister_code_trip : (k : ℕ) → k < 2 ^ 31 → size_of_unregister (unregister_code k) ≡ k
unfolding unregister_code
unregister_code_trip k h = ground arith

module _ (R : Rapidjson) (laws : IsFaithful R) where
  response_render :
      (type message : Bytes) (size code : ℕ)
      → IsShort message
      → size ≡ code
      → code < 2 ^ 31
      → c_str (
          render R (
            (codes "type", text type)
            ∷ (codes "message", text (take (length message % 2 ^ 32) message))
            ∷ (codes "code", number size)
            ∷ []))
        ≡ render R (response_fields type message code)
  response_render type message size code m e small =
      rw (e, take_short message m) (finish_clean R laws (response_fields type message code))

  -- A response to a request with a listed code and a message of at most 100 bytes fits a message.
  pub response_fits :
      (type message : Bytes) (size : ℕ)
      → length type ≤ 100
      → length message ≤ 100
      → size < 2 ^ 31
      → length (
          c_str (
            render R (
              (codes "type", text type)
              ∷ (codes "message", text (take (length message % 2 ^ 32) message))
              ∷ (codes "code", number size)
              ∷ [])))
        ≤ max_body_length
  response_fits type message size t m small =
      rw (response_render type message size size (omega arith) refl small)
        (omega (arith, laws.output_size (response_fields type message size)))

  -- What `to_json` writes of a register response, with a code below 2^31 and a message below 2^32 bytes,
  -- arrives as that response.
  pub register_response-Arrives :
      (k : ℕ) (message : Bytes)
      → k < 2 ^ 31
      → IsShort message
      → Arrives R
          (register_response_to_json R (response_of (register_code k) message))
          register_response_type.val
          (λ d. read_register_response R d register_response)
          (response_of (register_code k) message)
  unfolding register_response_to_json read_register_response beq c_str
  register_response-Arrives k message small m =
      let type = register_response_type.val in
      let fields = response_fields type message k in
      rw
        (response_render type message (size_of_register (register_code k)) k m
          (register_code_trip k small) small)
        (
          R.parse (render R fields),
          parse-render R laws fields,
          string-render R laws fields _ _ refl refl,
          rw (
            string-render R laws fields (codes "message") message refl refl,
            size-render R laws fields (codes "code") k refl (omega arith) refl,
          ),
        )

  -- What `to_json` writes of a login response, with a code below 2^31 and a message below 2^32 bytes,
  -- arrives as that response.
  pub login_response-Arrives :
      (k : ℕ) (message : Bytes)
      → k < 2 ^ 31
      → IsShort message
      → Arrives R
          (login_response_to_json R (response_of (login_code k) message))
          login_response_type.val
          (λ d. read_login_response R d login_response)
          (response_of (login_code k) message)
  unfolding login_response_to_json read_login_response beq c_str
  login_response-Arrives k message small m =
      let type = login_response_type.val in
      let fields = response_fields type message k in
      rw
        (response_render type message (size_of_login (login_code k)) k m (login_code_trip k small)
          small)
        (
          R.parse (render R fields),
          parse-render R laws fields,
          string-render R laws fields _ _ refl refl,
          rw (
            string-render R laws fields (codes "message") message refl refl,
            size-render R laws fields (codes "code") k refl (omega arith) refl,
          ),
        )

  -- What `to_json` writes of an unregister response, with a code below 2^31 and a message below 2^32 bytes,
  -- arrives as that response.
  pub unregister_response-Arrives :
      (k : ℕ) (message : Bytes)
      → k < 2 ^ 31
      → IsShort message
      → Arrives R
          (unregister_response_to_json R (response_of (unregister_code k) message))
          unregister_response_type.val
          (λ d. read_unregister_response R d unregister_response)
          (response_of (unregister_code k) message)
  unfolding unregister_response_to_json read_unregister_response beq c_str
  unregister_response-Arrives k message small m =
      let type = unregister_response_type.val in
      let fields = response_fields type message k in
      rw
        (response_render type message (size_of_unregister (unregister_code k)) k m
          (unregister_code_trip k small) small)
        (
          R.parse (render R fields),
          parse-render R laws fields,
          string-render R laws fields _ _ refl refl,
          rw (
            string-render R laws fields (codes "message") message refl refl,
            size-render R laws fields (codes "code") k refl (omega arith) refl,
          ),
        )

-- ===== src/Api/ConnectTrip.antt =====
-- The connection response.
use pocker_backend.Base.{ℕ, ◌^◌, ◌<◌, ◌≡◌, refl, ap, ◌∙◌, [], ◌∷◌, some, arith}
use pocker_backend.Base.Bytes.{Bytes, codes, c_str, beq}
use pocker_backend.Base.Int.{pos, int64_of_size}
use pocker_backend.Base.Results.{ok}
use pocker_backend.Rapidjson.{Rapidjson, Fields, text, number, render, IsFaithful}
use pocker_backend.Json.{value}
use pocker_backend.Api.Values.{set_val}
use pocker_backend.Api.Responses.{
  ConnectResponse, connect_response, connect_to_json, connect_from_json,
}
use pocker_backend.Api.Rendered.{finish_clean, int64_small}

abbrev connect_fields : ℕ → Fields
connect_fields code =
    (codes "type", text (codes "connect_response")) ∷ (codes "code", number code) ∷ []

abbrev pub connect_of : ℕ → ConnectResponse
connect_of code = record { code = set_val connect_response.code code }

module _ (R : Rapidjson) (laws : IsFaithful R) where
  connect_render :
      (code : ℕ) → c_str (render R (connect_fields code)) ≡ render R (connect_fields code)
  connect_render code = finish_clean R laws (connect_fields code)

  connect_found :
      (code : ℕ)
      → (v : R.Value) × (value R (R.parse (render R (connect_fields code))) (codes "code") ≡ ok v)
        × (R.get_int64 v ≡ some (int64_of_size code))
  unfolding value c_str beq
  connect_found code =
      let (v, found, holds) =
        (laws.reads_back (connect_fields code)).1 (codes "code") (number code) refl refl in
      (v, rw (value, found) refl, holds.1)

  connect_read :
      (s : Bytes) (v : R.Value) (code : ℕ)
      → value R (R.parse (c_str s)) (codes "code") ≡ ok v
      → R.get_int64 v ≡ some (pos code)
      → code < 2 ^ 63
      → connect_from_json R s connect_response ≡ ok (connect_of code)
  unfolding connect_from_json
  connect_read s v code got number_there small = ground arith

  -- What `to_json` writes of a connection response with a code below 2^63 is read back by `from_json`.
  pub connect_from_json-connect_to_json :
      (code : ℕ)
      → code < 2 ^ 63
      → connect_from_json R (connect_to_json R (connect_of code)) connect_response
        ≡ ok (connect_of code)
  unfolding connect_to_json
  connect_from_json-connect_to_json code small =
      let (v, got, number_there) = connect_found code in
      rw (connect_render code) (
        connect_read (render R (connect_fields code)) v code
          (rw (finish_clean R laws (connect_fields code)) got)
          (number_there ∙ ap some (int64_small code small)) small)

-- ===== src/Handler/Fits.antt =====
-- Every answer of the specification fits into a message.
use pocker_backend.Base.{◌≤◌, length, arith}
use pocker_backend.Message.{max_body_length}
use pocker_backend.Rapidjson.{Rapidjson, IsFaithful}
use pocker_backend.Api.ResponseTrip.{response_fits}
use pocker_backend.Api.Responses.{
  register_response_type, login_response_type, unregister_response_type, register_response_to_json,
  login_response_to_json, unregister_response_to_json,
}
use pocker_backend.Handler.Register.{email_taken, registered}
use pocker_backend.Handler.Login.{email_unknown, pass_incorrect, logged_in}
use pocker_backend.Handler.Unregister.{invalid_email, invalid_pass, unregistered}
use pocker_backend.Handler.Spec.{Answer, to_register, to_login, to_unregister, text_of}

abbrev pub Fits : Rapidjson → Answer → Type 0
Fits R answer = length (text_of R answer) ≤ max_body_length

module _ (R : Rapidjson) (laws : IsFaithful R) where
  pub email_taken-Fits : Fits R (to_register email_taken)
  unfolding register_response_to_json
  email_taken-Fits =
      response_fits R laws register_response_type.val email_taken.message.val 1 (omega arith)
        (omega arith) (omega arith)

  pub registered-Fits : Fits R (to_register registered)
  unfolding register_response_to_json
  registered-Fits =
      response_fits R laws register_response_type.val registered.message.val 0 (omega arith)
        (omega arith) (omega arith)

  pub email_unknown-Fits : Fits R (to_login email_unknown)
  unfolding login_response_to_json
  email_unknown-Fits =
      response_fits R laws login_response_type.val email_unknown.message.val 1 (omega arith)
        (omega arith) (omega arith)

  pub pass_incorrect-Fits : Fits R (to_login pass_incorrect)
  unfolding login_response_to_json
  pass_incorrect-Fits =
      response_fits R laws login_response_type.val pass_incorrect.message.val 2 (omega arith)
        (omega arith) (omega arith)

  pub logged_in-Fits : Fits R (to_login logged_in)
  unfolding login_response_to_json
  logged_in-Fits =
      response_fits R laws login_response_type.val logged_in.message.val 0 (omega arith)
        (omega arith) (omega arith)

  pub invalid_email-Fits : Fits R (to_unregister invalid_email)
  unfolding unregister_response_to_json
  invalid_email-Fits =
      response_fits R laws unregister_response_type.val invalid_email.message.val 1 (omega arith)
        (omega arith) (omega arith)

  pub invalid_pass-Fits : Fits R (to_unregister invalid_pass)
  unfolding unregister_response_to_json
  invalid_pass-Fits =
      response_fits R laws unregister_response_type.val invalid_pass.message.val 2 (omega arith)
        (omega arith) (omega arith)

  pub unregistered-Fits : Fits R (to_unregister unregistered)
  unfolding unregister_response_to_json
  unregistered-Fits =
      response_fits R laws unregister_response_type.val unregistered.message.val 0 (omega arith)
        (omega arith) (omega arith)

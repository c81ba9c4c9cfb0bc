-- ===== src/Api/Codes.antt =====
-- components/api/api.h: `code_enum` of each response, with the casts from and to `std::size_t`.
-- A cast can make a value that no enumerator has; `unlisted n` is the 32-bit pattern of such a value.
use pocker_backend.Base.{ℕ, zero, suc, ◌%◌, ◌^◌}
use pocker_backend.Base.Int.{signed, size_of_int}

pub data RegisterCode : Type 0 where
  ok name_taken etc : RegisterCode
  unlisted : ℕ → RegisterCode

pub data LoginCode : Type 0 where
  ok name_unknown pass_incorrect etc : LoginCode
  unlisted : ℕ → LoginCode

pub data UnregisterCode : Type 0 where
  ok no_name no_pass etc : UnregisterCode
  unlisted : ℕ → UnregisterCode

abbrev register_pattern : ℕ → RegisterCode
register_pattern zero = RegisterCode.ok
register_pattern (suc zero) = RegisterCode.name_taken
register_pattern (suc (suc zero)) = RegisterCode.etc
register_pattern (suc (suc (suc n))) = RegisterCode.unlisted (suc (suc (suc n)))

abbrev login_pattern : ℕ → LoginCode
login_pattern zero = LoginCode.ok
login_pattern (suc zero) = LoginCode.name_unknown
login_pattern (suc (suc zero)) = LoginCode.pass_incorrect
login_pattern (suc (suc (suc zero))) = LoginCode.etc
login_pattern (suc (suc (suc (suc n)))) = LoginCode.unlisted (suc (suc (suc (suc n))))

abbrev unregister_pattern : ℕ → UnregisterCode
unregister_pattern zero = UnregisterCode.ok
unregister_pattern (suc zero) = UnregisterCode.no_name
unregister_pattern (suc (suc zero)) = UnregisterCode.no_pass
unregister_pattern (suc (suc (suc zero))) = UnregisterCode.etc
unregister_pattern (suc (suc (suc (suc n)))) = UnregisterCode.unlisted (suc (suc (suc (suc n))))

-- `(code_enum) n`: the enumerations have the underlying type `int`.
unfoldable pub register_code : ℕ → RegisterCode
register_code n = register_pattern (n % 2 ^ 32)

unfoldable pub login_code : ℕ → LoginCode
login_code n = login_pattern (n % 2 ^ 32)

unfoldable pub unregister_code : ℕ → UnregisterCode
unregister_code n = unregister_pattern (n % 2 ^ 32)

-- `size_t(code)`
abbrev pub size_of_register : RegisterCode → ℕ
size_of_register RegisterCode.ok = 0
size_of_register RegisterCode.name_taken = 1
size_of_register RegisterCode.etc = 2
size_of_register (RegisterCode.unlisted n) = size_of_int (signed 32 n)

abbrev pub size_of_login : LoginCode → ℕ
size_of_login LoginCode.ok = 0
size_of_login LoginCode.name_unknown = 1
size_of_login LoginCode.pass_incorrect = 2
size_of_login LoginCode.etc = 3
size_of_login (LoginCode.unlisted n) = size_of_int (signed 32 n)

abbrev pub size_of_unregister : UnregisterCode → ℕ
size_of_unregister UnregisterCode.ok = 0
size_of_unregister UnregisterCode.no_name = 1
size_of_unregister UnregisterCode.no_pass = 2
size_of_unregister UnregisterCode.etc = 3
size_of_unregister (UnregisterCode.unlisted n) = size_of_int (signed 32 n)

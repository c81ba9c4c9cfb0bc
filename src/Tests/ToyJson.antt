-- ===== src/Tests/ToyJson.antt =====
-- A concrete stand-in for RapidJSON on which the theorems are evaluated: an object is written as a
-- brace and its tokens, a text as a mark and its shifted bytes, and is read from the right.
use mathlib.Core.Option.{none-ne-some}
use pocker_backend.Base.{
  ℕ, ◌+◌, ◌-◌, ◌≤◌, ◌≡◌, ◌≢◌, refl, sym, ap, ◌∙◌, List, [], ◌∷◌, ◌++◌, length, length-append,
  append_assoc, append-nil, true, false, Option, none, some, ◌==◌, if◌then◌else◌, arith,
}
use pocker_backend.Base.Bytes.{Bytes, beq, IsNulFree}
use pocker_backend.Base.Int.{ℤ, pos, negsuc, int64_of_size}
use pocker_backend.Rapidjson.{
  Rapidjson, ParseErrorCode, error_none, document_root_not_singular, Scalar, text, number, Fields,
  find_field, budget, write_fields, render, Holds, IsFaithful,
}

-- A value of a document, and its members.
pub data Token : Type 0 where
  chars : Bytes → Token
  int : ℤ → Token

abbrev pub Members : Type 0
Members = List (Bytes × Token)

abbrev pub find_token : Bytes → Members → Option Token
find_token name [] = none
find_token name ((k, x) ∷ members) = if beq k name then some x else find_token name members

abbrev token : Scalar → Token
token (text s) = chars s
token (number n) = int (int64_of_size n)

abbrev members : Fields → Members
members [] = []
members ((k, x) ∷ fields) = (k, token x) ∷ members fields

find_token-members :
    (name : Bytes) (fields : Fields) (x : Scalar)
    → find_field name fields ≡ some x
    → find_token name (members fields) ≡ some (token x)
find_token-members name [] x h = cc
find_token-members name ((k, y) ∷ fields) x h = ground (arith, find_token-members name fields x)

abbrev first : Bytes → ℕ
first [] = 0
first (x ∷ xs) = x

-- The text read so far, and the tokens behind it.
abbrev scan : Bytes → Bytes × List Token
scan [] = ([], [])
scan (x ∷ xs) =
    let (p, ts) = scan xs in
    if x == 1
    then ([], chars p ∷ ts)
    else if x == 2
    then ([], int (pos (first p)) ∷ ts)
    else if x == 3
    then ([], int (negsuc (first p)) ∷ ts)
    else ((x - 4) ∷ p, ts)

abbrev pair_up : List Token → Members
pair_up (chars k ∷ x ∷ ts) = (k, x) ∷ pair_up ts
pair_up _ = []

abbrev parse : Bytes → Option Members
parse [] = none
parse (x ∷ xs) = if x == 123 then some (pair_up (scan xs).1) else none

abbrev shifted : Bytes → Bytes
shifted [] = []
shifted (x ∷ s) = (x + 4) ∷ shifted s

abbrev enc : Token → Bytes
enc (chars s) = 1 ∷ shifted s
enc (int (pos n)) = 2 ∷ (n + 4) ∷ []
enc (int (negsuc n)) = 3 ∷ (n + 4) ∷ []

abbrev pub toy_json : Rapidjson
toy_json = record {
  Document = Option Members;
  Value = Token;
  parse = parse;
  has_parse_error = λ d. elim d [ none ↦ true | some _ ↦ false ];
  get_parse_error = λ d. elim d [ none ↦ document_root_not_singular | some _ ↦ error_none ];
  get_error_offset = λ d. 0;
  member = λ d name. elim d [ none ↦ none | some fields ↦ find_token name fields ];
  is_object = λ d. elim d [ none ↦ false | some fields ↦ true ];
  is_null = λ v. false;
  absent = none;
  absent_null = λ v e. absurd (none-ne-some v e);
  is_string = λ v. elim v [ chars _ ↦ true | int _ ↦ false ];
  get_string = λ v. elim v [ chars s ↦ s | int _ ↦ [] ];
  is_size = λ v. elim v [ chars _ ↦ false | int n ↦ elim n [ pos _ ↦ true | negsuc _ ↦ false ] ];
  get_size = λ v. elim v [ chars _ ↦ 0 | int n ↦ elim n [ pos k ↦ k | negsuc _ ↦ 0 ] ];
  get_int64 = λ v. elim v [ chars _ ↦ none | int n ↦ some n ];
  Writer = Bytes;
  new_writer = [];
  start_object = λ w. w ++ 123 ∷ [];
  string = λ s w. w ++ enc (chars s);
  int64 = λ n w. w ++ enc (int n);
  end_object = λ w. w;
  get_output = λ w. w;
}

abbrev enc_fields : Members → Bytes
enc_fields [] = []
enc_fields ((k, x) ∷ fields) = enc (chars k) ++ (enc x ++ enc_fields fields)

abbrev tokens : Members → List Token
tokens [] = []
tokens ((k, x) ∷ fields) = chars k ∷ x ∷ tokens fields

write_fields_lem :
    (fields : Fields) (w : Bytes)
    → write_fields toy_json fields w ≡ w ++ enc_fields (members fields)
write_fields_lem [] w = sym (append-nil w)
write_fields_lem ((k, text s) ∷ fields) w =
    write_fields_lem fields ((w ++ enc (chars k)) ++ enc (chars s))
    ∙ append_assoc (w ++ enc (chars k)) (enc (chars s)) (enc_fields (members fields))
    ∙ append_assoc w (enc (chars k)) (enc (chars s) ++ enc_fields (members fields))
write_fields_lem ((k, number n) ∷ fields) w =
    let x = enc (token (number n)) in
    write_fields_lem fields ((w ++ enc (chars k)) ++ x)
    ∙ append_assoc (w ++ enc (chars k)) x (enc_fields (members fields))
    ∙ append_assoc w (enc (chars k)) (x ++ enc_fields (members fields))

render_lem : (fields : Fields) → render toy_json fields ≡ 123 ∷ enc_fields (members fields)
render_lem fields = write_fields_lem fields (123 ∷ [])

scan-shifted :
    (s rest : Bytes) (ts : List Token) → scan rest ≡ ([], ts) → scan (shifted s ++ rest) ≡ (s, ts)
scan-shifted [] rest ts h = h
scan-shifted (x ∷ s) rest ts h = rw (scan-shifted s rest ts h) (ground arith)

scan-enc :
    (x : Token) (rest : Bytes) (ts : List Token)
    → scan rest ≡ ([], ts)
    → scan (enc x ++ rest) ≡ ([], x ∷ ts)
scan-enc (chars s) rest ts h = rw (scan-shifted s rest ts h) refl
scan-enc (int (pos n)) rest ts h = rw h (ground arith)
scan-enc (int (negsuc n)) rest ts h = rw h (ground arith)

scan-enc_fields : (fields : Members) → scan (enc_fields fields) ≡ ([], tokens fields)
scan-enc_fields [] = refl
scan-enc_fields ((k, x) ∷ fields) =
    scan-enc (chars k) (enc x ++ enc_fields fields) (x ∷ tokens fields)
      (scan-enc x (enc_fields fields) (tokens fields) (scan-enc_fields fields))

pair_up-tokens : (fields : Members) → pair_up (tokens fields) ≡ fields
pair_up-tokens [] = refl
pair_up-tokens ((k, x) ∷ fields) = ap (λ fs. (k, x) ∷ fs) (pair_up-tokens fields)

parse-render : (fields : Fields) → parse (render toy_json fields) ≡ some (members fields)
parse-render fields =
    rw (render_lem fields, scan-enc_fields (members fields), pair_up-tokens (members fields)) refl

append-IsNulFree : (xs ys : Bytes) → IsNulFree xs → IsNulFree ys → IsNulFree (xs ++ ys)
append-IsNulFree [] ys h k = k
append-IsNulFree (x ∷ xs) ys h k = (h.0, append-IsNulFree xs ys h.1 k)

shifted-IsNulFree : (s : Bytes) → IsNulFree (shifted s)
shifted-IsNulFree [] = tt
shifted-IsNulFree (x ∷ s) = (λ e. omega arith, shifted-IsNulFree s)

enc-IsNulFree : (x : Token) → IsNulFree (enc x)
enc-IsNulFree (chars s) = (λ e. omega arith, shifted-IsNulFree s)
enc-IsNulFree (int (pos n)) = (λ e. omega arith, (λ e. omega arith, tt))
enc-IsNulFree (int (negsuc n)) = (λ e. omega arith, (λ e. omega arith, tt))

enc_fields-IsNulFree : (fields : Members) → IsNulFree (enc_fields fields)
enc_fields-IsNulFree [] = tt
enc_fields-IsNulFree ((k, x) ∷ fields) =
    append-IsNulFree (enc (chars k)) (enc x ++ enc_fields fields) (enc-IsNulFree (chars k))
      (append-IsNulFree (enc x) (enc_fields fields) (enc-IsNulFree x) (enc_fields-IsNulFree fields))

length-shifted : (s : Bytes) → length (shifted s) ≡ length s
length-shifted [] = refl
length-shifted (x ∷ s) = omega (arith, length-shifted s)

length-enc : (n : ℤ) → length (enc (int n)) ≡ 2
length-enc (pos n) = refl
length-enc (negsuc n) = refl

enc_fields_size : (fields : Fields) → length (enc_fields (members fields)) + 1 ≤ budget fields
enc_fields_size [] = omega arith
enc_fields_size ((k, text s) ∷ fields) = omega (
  arith,
  enc_fields_size fields,
  length-append (enc (chars k)) (enc (chars s) ++ enc_fields (members fields)),
  length-append (enc (chars s)) (enc_fields (members fields)),
  length-shifted k,
  length-shifted s,
)
enc_fields_size ((k, number n) ∷ fields) =
    let x = enc (token (number n)) in
    omega (
      arith,
      enc_fields_size fields,
      length-append (enc (chars k)) (x ++ enc_fields (members fields)),
      length-append x (enc_fields (members fields)),
      length-enc (int64_of_size n),
      length-shifted k,
    )

size_held :
    (n : ℤ) (k : ℕ)
    → n ≡ pos k
    → (toy_json.is_size (int n) ≡ true) × (toy_json.get_size (int n) ≡ k)
size_held (pos n) k e = (refl, cc)
size_held (negsuc n) k e = cc

Holds-token : (x : Scalar) → Holds toy_json (token x) x
Holds-token (text s) = (refl, refl, refl)
Holds-token (number n) = (refl, refl, size_held (int64_of_size n))

error_coded :
    (d : Option Members)
    → toy_json.has_parse_error d ≡ true
    → toy_json.get_parse_error d ≢ ParseErrorCode.error_none
error_coded none h = λ e. cc
error_coded (some fields) h = cc

pub toy_json-IsFaithful : IsFaithful toy_json
toy_json-IsFaithful = record {
  error_has_code = error_coded;
  output_clean =
      λ fields. rw (render_lem fields) (λ e. omega arith, enc_fields-IsNulFree (members fields));
  output_size = λ fields. rw (render_lem fields) (omega (arith, enc_fields_size fields));
  reads_back = λ fields. rw (parse-render fields) (
    refl,
    λ name x clean found. (token x, find_token-members name fields x found, Holds-token x),
  );
}

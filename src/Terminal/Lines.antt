-- ===== src/Terminal/Lines.antt =====
-- What becomes of a line that is typed.
use pocker_backend.Base.{
  Option, none, ℕ, ◌<◌, ◌≤◌, ◌≡◌, refl, List, [], ◌∷◌, ◌++◌, Bool, true, false, some, length, arith,
}
use pocker_backend.Base.Bytes.{Bytes, codes}
use pocker_backend.Base.Results.{ok, err, library_error}
use pocker_backend.Message.{message, Message, max_body_length, assign, body, wire}
use pocker_backend.Message.Frame.{IsFrame, assign-IsFrame}
use pocker_backend.Handler.Spec.{Request, registers, logs_in}
use pocker_backend.Handler.Messages.{request_text}
use pocker_backend.Client.{write}
use pocker_backend.Terminal.Words.{
  IsWord, IsSplitting, Seps, contains-append, split_three, split_four,
}
use pocker_backend.Terminal.{
  Tools, Console, contains, separators, hash, send_reg_request, send_login_request, line_read,
}

-- A line as a command, and the request that it stands for: words without separators, each behind a
-- separator, the first with "/r" or "/l" in it, and a password that is hashed.
pub data Typed (T : Tools) : Bytes → Request → Type 0 where
  types_register :
      (w nick email pass : Bytes) (s₁ s₂ s₃ : ℕ)
      → contains (codes "/r") w ≡ true
      → IsWord separators w
      → IsWord separators nick
      → IsWord separators email
      → IsWord separators pass
      → Seps (s₁ ∷ s₂ ∷ s₃ ∷ [])
      → Typed T (w ++ s₁ ∷ (nick ++ s₂ ∷ (email ++ s₃ ∷ pass))) (registers nick email (hash T pass))
  types_login :
      (w email pass : Bytes) (s₁ s₂ : ℕ)
      → contains (codes "/r") (w ++ s₁ ∷ (email ++ s₂ ∷ pass)) ≡ false
      → contains (codes "/l") w ≡ true
      → IsWord separators w
      → IsWord separators email
      → IsWord separators pass
      → Seps (s₁ ∷ s₂ ∷ [])
      → Typed T (w ++ s₁ ∷ (email ++ s₂ ∷ pass)) (logs_in email (hash T pass))

reg_throws :
    (T : Tools) (line : Bytes) (words : List Bytes) (s : Console T)
    → T.split separators line ≡ words
    → length words < 4
    → send_reg_request T line s.conn ≡ err library_error
unfolding send_reg_request
reg_throws T line [] s e few = rw e refl
reg_throws T line (a ∷ []) s e few = rw e refl
reg_throws T line (a ∷ b ∷ []) s e few = rw e refl
reg_throws T line (a ∷ b ∷ c ∷ []) s e few = rw e refl
reg_throws T line (a ∷ b ∷ c ∷ d ∷ words) s e few = absurd (omega arith)

login_throws :
    (T : Tools) (line : Bytes) (words : List Bytes) (s : Console T)
    → T.split separators line ≡ words
    → length words < 3
    → send_login_request T line s.conn ≡ err library_error
unfolding send_login_request
login_throws T line [] s e few = rw e refl
login_throws T line (a ∷ []) s e few = rw e refl
login_throws T line (a ∷ b ∷ []) s e few = rw e refl
login_throws T line (a ∷ b ∷ c ∷ words) s e few = absurd (omega arith)

module _ (T : Tools) (full : length (T.memory) ≡ 2048) (splits : IsSplitting (T.split)) where
  -- A line sends a message with this text, and `main` waits for the answer.
  abbrev pub Sends : Bytes → Bytes → Console T → Type 0
  Sends line text s =
      (m : Message) × (line_read T line s
        ≡ ok (record s { conn = write (T.queue) m s.conn; waits = true }))
      × (assign (message (T.memory)) text ≡ ok m)
      × (body m ≡ text)
      × IsFrame text (wire m)

  reg_sent :
      (line w nick email pass : Bytes) (s : Console T)
      → contains (codes "/r") line ≡ true
      → T.split separators line ≡ w ∷ nick ∷ email ∷ pass ∷ []
      → length (request_text (T.rapidjson) (registers nick email (hash T pass))) ≤ max_body_length
      → Sends line (request_text (T.rapidjson) (registers nick email (hash T pass))) s
  unfolding line_read send_reg_request
  reg_sent line w nick email pass s asked words fits =
      let (m, made, _, is, frame) = assign-IsFrame (message (T.memory)) _ full fits in
      (m, rw (asked, words, made) refl, made, is, frame)

  login_sent :
      (line w email pass : Bytes) (s : Console T)
      → contains (codes "/r") line ≡ false
      → contains (codes "/l") line ≡ true
      → T.split separators line ≡ w ∷ email ∷ pass ∷ []
      → length (request_text (T.rapidjson) (logs_in email (hash T pass))) ≤ max_body_length
      → Sends line (request_text (T.rapidjson) (logs_in email (hash T pass))) s
  unfolding line_read send_login_request
  login_sent line w email pass s not_reg asked words fits =
      let (m, made, _, is, frame) = assign-IsFrame (message (T.memory)) _ full fits in
      (m, rw (not_reg, asked, words, made) refl, made, is, frame)

  -- Where the splitting breaks a line at each tab and semicolon, and a message has 2048 bytes of memory:
  -- a line that is typed as a command of four words with "/r" in the first, or of three words with
  -- "/l" in the first and "/r" nowhere, sends the message made of the text of that request, with the
  -- last word hashed, in a frame that decodes, if the text has at most 2044 bytes; and `main` then waits
  -- for the answer.
  pub line_read-Typed :
      (line : Bytes) (q : Request) (s : Console T)
      → Typed T line q
      → length (request_text (T.rapidjson) q) ≤ max_body_length
      → Sends line (request_text (T.rapidjson) q) s
  line_read-Typed _ _ s (types_register w nick email pass s₁ s₂ s₃ asked hw hn he hp seps) fits =
      reg_sent _ w nick email pass s (contains-append (codes "/r") w _ asked)
        (split_four (T.split) splits w nick email pass s₁ s₂ s₃ hw hn he hp seps) fits
  line_read-Typed _ _ s (types_login w email pass s₁ s₂ not_reg asked hw he hp seps) fits =
      login_sent _ w email pass s not_reg (contains-append (codes "/l") w _ asked)
        (split_three (T.split) splits w email pass s₁ s₂ hw he hp seps) fits

-- The number of words that a line is read for, if it is read for a request: by whether "/r" and whether
-- "/l" is in it.
abbrev words_for : Bool → Bool → Option ℕ
words_for true login = some 4
words_for false true = some 3
words_for false false = none

abbrev pub needed : Bytes → Option ℕ
needed line = words_for (contains (codes "/r") line) (contains (codes "/l") line)

few_words :
    (T : Tools) (line : Bytes) (s : Console T) (n : ℕ) (reg login : Bool)
    → contains (codes "/r") line ≡ reg
    → contains (codes "/l") line ≡ login
    → words_for reg login ≡ some n
    → length (T.split separators line) < n
    → line_read T line s ≡ err library_error
unfolding line_read
few_words T line s n true login is_reg is_login needs few =
    let four : 4 ≡ n = cc in
    let short : length (T.split separators line) < 4 = omega arith in
    rw (is_reg, reg_throws T line (T.split separators line) s refl short) refl
few_words T line s n false true is_reg is_login needs few =
    let three : 3 ≡ n = cc in
    let short : length (T.split separators line) < 3 = omega arith in
    rw (is_reg, is_login, login_throws T line (T.split separators line) s refl short) refl
few_words T line s n false false is_reg is_login needs few = absurd (cc)

as_typed :
    (T : Tools) (line : Bytes) (s : Console T) (m : Message) (reg login : Bool)
    → contains (codes "/r") line ≡ reg
    → contains (codes "/l") line ≡ login
    → words_for reg login ≡ none
    → assign (message (T.memory)) line ≡ ok m
    → line_read T line s ≡ ok (record s { conn = write (T.queue) m s.conn })
unfolding line_read
as_typed T line s m true login is_reg is_login needs made = absurd (cc)
as_typed T line s m false true is_reg is_login needs made = absurd (cc)
as_typed T line s m false false is_reg is_login needs made = rw (is_reg, is_login, made) refl

-- Whatever the splitting: a line with "/r" anywhere in it and fewer than four words throws, and so does
-- a line with "/l" but no "/r" and fewer than three words.
pub line_read-few_words :
    (T : Tools) (line : Bytes) (s : Console T) (n : ℕ)
    → needed line ≡ some n
    → length (T.split separators line) < n
    → line_read T line s ≡ err library_error
line_read-few_words T line s n needs few =
    few_words T line s n (contains (codes "/r") line) (contains (codes "/l") line) refl refl needs
      few

-- A line that is read for no request goes out as it is typed, in a frame that decodes, if it has at most
-- 2044 bytes and a message 2048 bytes of memory; and no answer is waited for.
pub line_read-as_typed :
    (T : Tools) (line : Bytes) (s : Console T)
    → length (T.memory) ≡ 2048
    → needed line ≡ none
    → length line ≤ max_body_length
    → (m : Message) × (line_read T line s ≡ ok (record s { conn = write (T.queue) m s.conn }))
      × IsFrame line (wire m)
line_read-as_typed T line s full needs fits =
    let (m, made, _, _, frame) = assign-IsFrame (message (T.memory)) line full fits in
    (
      m,
      as_typed T line s m (contains (codes "/r") line) (contains (codes "/l") line) refl refl needs
          made,
      frame,
    )

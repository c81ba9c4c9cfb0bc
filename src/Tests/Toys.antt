-- ===== src/Tests/Toys.antt =====
-- Concrete stand-ins for what the client program uses: a queue, the splitting of a line, and spdlog.
use pocker_backend.Base.{
  Bool, true, ℕ, suc, ◌≡◌, refl, ap, List, [], ◌∷◌, ◌++◌, Option, none, some, true, if◌then◌else◌,
}
use pocker_backend.Base.Bytes.{Bytes}
use pocker_backend.Base.Int.{ℤ}
use pocker_backend.Message.{Message}
use pocker_backend.Client.{ReaderWriterQueue, IsFifo}
use pocker_backend.Logger.{Spdlog, IsLeveled}
use pocker_backend.Terminal.Words.{is_in, IsWord, IsSplitting}

-- Every port can be listened on.
abbrev pub all_ports : ℕ → Bool
all_ports port = true

abbrev front : List Message → Option (Message × List Message)
front [] = none
front (m ∷ q) = some (m, q)

abbrev count : List Message → ℕ
count [] = 0
count (m ∷ q) = suc (count q)

abbrev pub toy_queue : ReaderWriterQueue
toy_queue = record {
  Queue = List Message;
  new_queue = [];
  enqueue = λ m q. q ++ m ∷ [];
  try_dequeue = front;
  wait_dequeue = front;
  wait_dequeue_timed = λ ms q. front q;
  size_approx = count;
}

unfoldable pub toy_queue-IsFifo : IsFifo toy_queue
toy_queue-IsFifo = record {
  items = λ q. q;
  items-new_queue = refl;
  items-enqueue = λ m q. refl;
  wait_dequeue_front = λ m rest q e. (rest, ap front e, refl);
}

-- The first word grows by a byte.
abbrev onto_first : ℕ → List Bytes → List Bytes
onto_first x [] = (x ∷ []) ∷ []
onto_first x (w ∷ words) = (x ∷ w) ∷ words

abbrev pub toy_split : Bytes → Bytes → List Bytes
toy_split seps [] = [] ∷ []
toy_split seps (x ∷ s) =
    let rest = toy_split seps s in if is_in seps x then [] ∷ rest else onto_first x rest

one_word : (seps word : Bytes) → IsWord seps word → toy_split seps word ≡ word ∷ []
one_word seps [] h = refl
one_word seps (x ∷ word) (out, h) = rw (out, one_word seps word h) refl

word_and_more :
    (seps word rest : Bytes) (sep : ℕ)
    → IsWord seps word
    → is_in seps sep ≡ true
    → toy_split seps (word ++ sep ∷ rest) ≡ word ∷ toy_split seps rest
word_and_more seps [] rest sep h is = rw is refl
word_and_more seps (x ∷ word) rest sep (out, h) is =
    rw (out, word_and_more seps word rest sep h is) refl

pub toy_split-IsSplitting : IsSplitting toy_split
toy_split-IsSplitting = record { split-word = one_word; split-separator = word_and_more }

-- A log is the level and the messages.
abbrev pub toy_spdlog : Spdlog
toy_spdlog = record {
  Log = ℤ × List Bytes;
  trace = 0;
  debug = 1;
  info = 2;
  warn = 3;
  err = 4;
  critical = 5;
  off = 6;
  new_log = λ name file pattern. (ℤ.pos 2, []);
  set_level = λ l o. (l, o.1);
  level = λ o. o.0;
  log = λ l mes o. (o.0, o.1 ++ mes ∷ []);
  Registry = List ℕ;
  set_default_logger = λ name i r. i ∷ r;
  register_logger = λ i r. r ++ i ∷ [];
  get = λ name r. elim r [ [] ↦ none | i ∷ _ ↦ some i ];
  format = λ format_str args. format_str;
  format_int = λ format_str i. format_str;
}

pub toy_spdlog-IsLeveled : IsLeveled toy_spdlog
toy_spdlog-IsLeveled = record {
  level-set_level = λ l o. refl;
  level-log = λ l mes o. refl;
  get-set_default_logger = λ name i r. refl;
}

-- ===== src/Tests/Growing.antt =====
-- The server has started and accepts its first client, over the stand-ins.
use pocker_backend.Base.{ℕ, [], List, Bool, false}
use pocker_backend.Message.{Message}
use pocker_backend.Connection.{Connection}
use pocker_backend.Handler.Spec.{Request}
use pocker_backend.Server.Starting.{sqlpp_of}
use pocker_backend.Network.Holds.{Setup, Net}
use pocker_backend.Tests.Backend.{toy_env, config}
use pocker_backend.Tests.Toys.{toy_queue, toy_split}
use pocker_backend.Tests.Conversing.{memory}
use pocker_backend.Tests.Joining.{console}
use pocker_backend.Tests.Looping.{started}

abbrev setup : Setup
setup = record {
  env = toy_env;
  config = config;
  sqlpp_config = sqlpp_of config;
  participants = [];
  queue = toy_queue;
  split = toy_split;
  garbage = memory;
}

-- No client has joined.
abbrev nobody : ℕ → Bool
nobody i = false

abbrev unasked : ℕ → List Request
unasked i = []

abbrev empty : Net setup
empty = record {
  input = λ i. [];
  consoles = λ i. console;
  up = λ i. [];
  down = λ i. [];
  backend = started.backend;
}

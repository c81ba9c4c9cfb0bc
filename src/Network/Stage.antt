-- ===== src/Network/Stage.antt =====
-- How far the request of a client has come, and what moves it on.
use pocker_backend.Base.{ℕ, ◌≡◌, ◌≢◌, List, ◌∷◌, false, arith, ◌==◌}
use pocker_backend.Base.Bytes.{Bytes}
use pocker_backend.Network.{
  Kind, reads_line, client_posts, client_wrote, server_reads, server_wrote, client_reads, prints,
}
use pocker_backend.Network.Phase.{Phase}

-- A phase without its messages.
pub data Stage : Type 0 where
  idle posted writing sent announced answered replied told queued : Stage

abbrev pub stage : Phase → Stage
stage Phase.idle = idle
stage (Phase.posted _ _) = posted
stage (Phase.writing _ _) = writing
stage (Phase.sent _ _) = sent
stage (Phase.announced _) = announced
stage (Phase.answered _ _) = answered
stage (Phase.replied _ _) = replied
stage (Phase.told _) = told
stage (Phase.queued _ _) = queued

-- What happens at a client moves it on from one stage only; from `idle` a line is needed.
abbrev pub advance : Kind → Stage → List Bytes → Stage
advance reads_line idle (_ ∷ _) = posted
advance client_posts posted _ = writing
advance client_wrote writing _ = sent
advance server_reads sent _ = announced
advance server_reads announced _ = answered
advance server_wrote answered _ = replied
advance client_reads replied _ = told
advance client_reads told _ = queued
advance prints queued _ = idle
advance _ st _ = st

-- The lines that are left.
abbrev pub left : Kind → Stage → List Bytes → List Bytes
left reads_line idle (_ ∷ lines) = lines
left _ _ lines = lines

pub ==_apart : (i j : ℕ) → i ≢ j → (i == j) ≡ false
==_apart i j h = ground arith

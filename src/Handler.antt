-- ===== src/Handler.antt =====
-- include/net/mes_handler.h and src/net/mes_handler/mes_handler.cpp: the state that the handlers
-- share, the steps that they are made of, and the dispatch of a message to a handler.
pub mod State
pub mod Register
pub mod Login
pub mod Unregister
pub mod Dispatch
pub mod Spec
pub mod Reply
pub mod Branches
pub mod Fits
pub mod Landing
pub mod Refines
pub mod Messages
pub mod Participants
pub mod Keeps
pub mod Kept
pub mod Session

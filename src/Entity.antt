-- ===== src/Entity.antt =====
-- adchpp/Entity.h and adchpp/Entity.cpp: a participant of the hub. The maps of the source are
-- association lists; a cached buffer is an optional byte string.
pub mod Fields
pub mod Supports
pub mod Flags
pub mod Info
pub mod Plugins
use adchubd.Base.{ℕ, ◌+◌, ◌*◌, List, [], Bytes, Option, none}

pub data State : Type 0 where
  protocol hbri identify verify normal transfer : State

pub data Kind : Type 0 where
  unknown client hub bot : Kind

pub record Entity : Type 0 where
  pub kind : Kind
  pub cid : Bytes
  pub sid : ℕ
  pub flags : ℕ
  pub state : State
  pub supports : List ℕ
  pub filters : List ℕ
  pub fields : List (ℕ × Bytes)
  pub inf : Option Bytes
  pub sup : Option Bytes

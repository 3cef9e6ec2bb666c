-- ===== src/Rooms.antt =====
-- GameRoomServer/RoomManager.cpp: the handlers of the room manager, each from its arguments and the state to the
-- state and the actions in their order. Arguments of the callbacks, and what `ConfirmAuthentication` returns, are
-- arguments of the steps that they lead to.
pub mod State
pub mod Making
pub mod Joining
pub mod Reports
pub mod Events
pub mod Creates
pub mod Joins
pub mod Invariant
pub mod Histories
pub mod Stopped
mod Tests

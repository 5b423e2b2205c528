-- ===== src/Tracer.antt =====
-- src/trace/tracer.h, src/trace/tracer.cpp.
pub mod Types
pub mod Loop
pub mod Log
pub mod Frame
pub mod Own
pub mod System
pub mod Soundness
pub mod Run
pub mod Mediation
pub mod Returns
pub mod Errors
pub mod Decide
pub mod Approval
pub mod Granted
pub mod Child
pub mod ChildOrder
pub mod Ending
pub mod Monitor
pub mod Seen
pub mod Refinement
pub mod Results
pub mod Entries
pub mod LetThrough
pub mod Progress
pub mod GrantedBy
pub mod Worlds
pub mod Asking

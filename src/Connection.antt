-- ===== src/Connection.antt =====
-- source/AsyncConnection.cpp with the state of include/Connection.h and include/AsyncConnection.h:
-- one connection, from the accepted socket over its requests and replies to the close.
pub mod State
pub mod Headers
pub mod Reply
pub mod Regular
pub mod Stream
pub mod Execution
pub mod Request
pub mod Timer
pub mod Awaiting
pub mod Session
pub mod Quiet
pub mod Persistence
pub mod Announcement
pub mod Timeout
pub mod Framing
pub mod Intake
pub mod HeadReply
pub mod Delivery
pub mod Chunks
pub mod Settling
pub mod SettlingReplies
pub mod RequestCount
pub mod RequestBound
pub mod Expectation
pub mod Pieces
pub mod Streaming
pub mod ChunkedReply
pub mod LengthReply
pub mod Reports
pub mod Steady
pub mod History
pub mod Operations
pub mod Starting
pub mod StartingReplies
pub mod Protocol
pub mod StartingRequests
pub mod Sequential
pub mod SettlingTimer
pub mod Negotiation
pub mod Pipelining
pub mod RefusedRead

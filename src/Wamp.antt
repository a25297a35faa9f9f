-- ===== src/Wamp.antt =====
-- The messages of WAMP: wamp/message.py, where each class has a method `parse`, from a list that a
-- serializer made, and a method `marshal`, back to such a list.
pub mod Value
pub mod Uri
pub mod Checks
pub mod Session
pub mod Choices
pub mod Requests
pub mod Subscription
pub mod Registration
pub mod Calls
pub mod Payload
pub mod Event
pub mod Message
pub mod Batch
pub mod Answer
pub mod Procedure
pub mod CallResult
pub mod Pending
pub mod Client
mod Examples

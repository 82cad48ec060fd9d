-- ===== src/Tests.antt =====
-- Concrete runs of the definitions, and the theorems at concrete inputs.
mod Messages
mod Names
mod Start
mod Addr
mod Rc4
mod Llist
mod Tcp
mod Answer
mod Htable
mod Replies
mod Sort
mod Search
mod Send
mod Time
mod Parses
mod Qsort

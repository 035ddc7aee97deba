-- ===== src/Login.antt =====
-- Who may connect and log in: attempts by one address (src/ban.cpp) and the queue of players in front of
-- a full server (src/waitlist.cpp).
pub mod Ban
pub mod WaitList
mod Tests

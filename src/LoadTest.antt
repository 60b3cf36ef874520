-- ===== src/LoadTest.antt =====
-- loadtest/Tester.cpp: the program that sends a file of requests to a server and prints the timings.
pub mod Status
pub mod Requests
pub mod Progress
pub mod StatusSpec
pub mod Run
pub mod Conservation
pub mod Suite

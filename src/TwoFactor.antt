-- ===== src/TwoFactor.antt =====
-- plugin/twofactor: the two-factor plugin.
pub mod Config
pub mod Bounds
pub mod Totp
pub mod Window
pub mod Codes
pub mod Records
pub mod Challenges
pub mod Lockout
pub mod Verify
pub mod Handlers
pub mod Metadata
pub mod Attempts
pub mod Preserved
pub mod Begun
pub mod GivenBack
pub mod Requests
pub mod Guesses
pub mod BackupCodes
pub mod Locked
pub mod Passwords
pub mod Enroll
pub mod SignIn
pub mod Enrolled
pub mod Redeemed
pub mod Model
pub mod Code
mod Tests
mod Scenarios

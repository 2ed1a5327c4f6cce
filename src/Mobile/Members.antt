-- ===== src/Mobile/Members.antt =====
-- mobile/src/features/members and mobile/src/app/(tabs)/more/members.tsx: the screen of a
-- workspace's members.
pub mod Access
pub mod Screen

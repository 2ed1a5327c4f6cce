-- ===== src/Web/Members.antt =====
-- web/src/features/members: a member's channels (member-channel-access.tsx), the form that adds one
-- (add-member-form.tsx, capability-checkboxes.tsx) and the feed of what members did
-- (activity-feed.tsx).
pub mod Access
pub mod Add

-- ===== src/Web/Schedule.antt =====
-- web/src/features/schedule: the dialog that publishes a draft (schedule-dialog.tsx), the calendar
-- (calendar-screen.tsx), a scheduled job in it (job-item.tsx) and the weekly posting slots
-- (slots-manager.tsx).
pub mod Dialog
pub mod JobItem
pub mod Calendar
pub mod Slots

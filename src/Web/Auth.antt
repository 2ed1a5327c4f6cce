-- ===== src/Web/Auth.antt =====
-- web/src/features/auth: the forms (login-form.tsx, signup-form.tsx, request-reset-form.tsx,
-- confirm-reset-form.tsx, schemas.ts), the button that sends the verification e-mail again
-- (resend-verification.tsx) and the page that verifies (verify-email-client.tsx).
pub mod Forms
pub mod Resend
pub mod Verify

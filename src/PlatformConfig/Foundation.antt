-- ===== src/PlatformConfig/Foundation.antt =====
-- The features that are on unless a configuration says otherwise (`FOUNDATION_DEFAULTS_ON` of
-- web-server/src/platform-config/feature-flag.service.ts).
use multi_academy_backend.Prelude.{String, List, [], ◌∷◌}

unfoldable pub foundation_defaults_on : List String
foundation_defaults_on =
    "auth.login" ∷ "auth.register" ∷ "auth.password_reset" ∷ "auth.biometric_webauthn"
    ∷ "auth.remember_me" ∷ "users.management" ∷ "users.passport_photo" ∷ "org.profile"
    ∷ "org.branding" ∷ "org.subscription_view" ∷ "audit.logs" ∷ "rbac.permissions"
    ∷ "academic.sessions_terms" ∷ "academic.classes" ∷ "academic.subjects" ∷ "academic.enrollments"
    ∷ "academic.assignments" ∷ "academic.results" ∷ "academic.results_approve"
    ∷ "academic.scheme_of_work" ∷ "academic.grading_matrix" ∷ "attendance.students"
    ∷ "attendance.staff" ∷ "attendance.manual_codes" ∷ "attendance.geo_verification"
    ∷ "attendance.auto_absent_eod" ∷ "fees.structures" ∷ "fees.invoices" ∷ "fees.payments_manual"
    ∷ "fees.scholarships" ∷ "fees.refunds" ∷ "comms.announcements" ∷ "comms.in_app_notifications"
    ∷ "reports.view" ∷ "users.parent_activation" ∷ "ops.safeguarding" ∷ "comms.inbox"
    ∷ "comms.messaging" ∷ "comms.pta" ∷ "portal.parent" ∷ []

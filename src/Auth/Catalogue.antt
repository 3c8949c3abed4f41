-- ===== src/Auth/Catalogue.antt =====
-- The roles and what each may do (web-server/src/common/auth/role-permissions.ts).
use multi_academy_backend.Prelude.{String, List, [], ◌∷◌, ◌++◌}
use multi_academy_backend.Prelude.Dict.{Dict}

unfoldable pub role_ids : List String
role_ids =
    "director" ∷ "school_admin" ∷ "it_admin" ∷ "head_teacher" ∷ "principal" ∷ "vice_principal"
    ∷ "assistant_head_teacher" ∷ "bursar" ∷ "class_teacher" ∷ "subject_teacher"
    ∷ "administrative_staff" ∷ "student" ∷ "parent" ∷ "driver" ∷ "guard" ∷ "nurse" ∷ []

abbrev pub school_leader_permissions : List String
school_leader_permissions =
    "ai:use" ∷ "results:read" ∷ "results:view_all" ∷ "results:approve" ∷ "students:update"
    ∷ "staff:read" ∷ "staff_records:view" ∷ "dashboards:view" ∷ "dashboards:view_strategic"
    ∷ "reports:view" ∷ "reports:generate" ∷ "analytics:view" ∷ "classes:read" ∷ "subjects:read"
    ∷ "student_attendance:read" ∷ "student_attendance:view_all" ∷ "staff_attendance:read"
    ∷ "staff_attendance:view_all" ∷ "staff_attendance:create" ∷ "biometric:verify"
    ∷ "notifications:view" ∷ "assignments:read" ∷ "curriculum:view" ∷ "curriculum:manage"
    ∷ "cbt:read" ∷ "cbt:manage" ∷ "cbt:publish" ∷ "inventory:read" ∷ "inventory:manage"
    ∷ "budgets:read" ∷ "budgets:manage" ∷ "payroll:read" ∷ "payroll:manage" ∷ "analytics:view"
    ∷ "ai:use" ∷ "consent:read" ∷ "consent:manage" ∷ "emergency:send" ∷ "hostel:read"
    ∷ "hostel:manage" ∷ "push:register" ∷ "push:send" ∷ "sync:write" ∷ "timetable:read"
    ∷ "timetable:manage" ∷ "lesson_notes:read" ∷ "lesson_notes:manage" ∷ []

abbrev pub director_permissions : List String
director_permissions =
    "ai:use" ∷ "organization:view" ∷ "organization:update" ∷ "organization_settings:configure"
    ∷ "dashboards:view" ∷ "dashboards:view_strategic" ∷ "reports:view" ∷ "reports:generate"
    ∷ "reports:export" ∷ "analytics:view" ∷ "audit_logs:view" ∷ "staff:read" ∷ "staff_records:view"
    ∷ "staff_attendance:view_all" ∷ "students:read" ∷ "students:update" ∷ "student_records:view"
    ∷ "student_attendance:view_all" ∷ "results:read" ∷ "results:view_all" ∷ "classes:read"
    ∷ "subjects:read" ∷ "curriculum:view" ∷ "fees:view" ∷ "fee_structures:read" ∷ "payments:view"
    ∷ "invoices:read" ∷ "users:read" ∷ "roles:assign" ∷ "announcements:read"
    ∷ "announcements:create" ∷ "notifications:view" ∷ "correspondence:manage" ∷ "calendar:manage"
    ∷ "cbt:read" ∷ "cbt:manage" ∷ "cbt:publish" ∷ "transport:read" ∷ "transport:manage"
    ∷ "clinic:read" ∷ "clinic:manage" ∷ "inventory:read" ∷ "inventory:manage" ∷ "budgets:read"
    ∷ "budgets:manage" ∷ []

abbrev pub it_admin_permissions : List String
it_admin_permissions =
    "ai:use" ∷ "organization:view" ∷ "users:create" ∷ "users:read" ∷ "users:update" ∷ "users:delete"
    ∷ "users:manage" ∷ "accounts:create" ∷ "accounts:manage" ∷ "accounts:reset" ∷ "roles:assign"
    ∷ "classes:read" ∷ "classes:create" ∷ "classes:update" ∷ "subjects:read" ∷ "subjects:create"
    ∷ "students:read" ∷ "students:update" ∷ "biometric:configure" ∷ "biometric:verify"
    ∷ "audit_logs:view" ∷ "system_config:view" ∷ "system_config:manage" ∷ "notifications:manage"
    ∷ "dashboards:view" ∷ []

abbrev pub school_admin_permissions : List String
school_admin_permissions =
    "ai:use" ∷ "organization:view" ∷ "organization:update" ∷ "organization_settings:configure"
    ∷ "academic_sessions:manage" ∷ "academic_terms:manage" ∷ "departments:manage"
    ∷ "school_levels:manage" ∷ "staff:read" ∷ "staff:create" ∷ "staff:update" ∷ "users:read"
    ∷ "users:create" ∷ "users:update" ∷ "roles:assign" ∷ "classes:manage" ∷ "classes:read"
    ∷ "classes:create" ∷ "classes:update" ∷ "classes:delete" ∷ "subjects:create" ∷ "subjects:read"
    ∷ "subjects:update" ∷ "subjects:delete" ∷ "results:read" ∷ "assignments:read"
    ∷ "curriculum:view" ∷ "reports:view" ∷ "reports:generate" ∷ "dashboards:view"
    ∷ "announcements:create" ∷ "announcements:read" ∷ "announcements:update"
    ∷ "announcements:delete" ∷ "correspondence:manage" ∷ "calendar:manage" ∷ "cbt:read"
    ∷ "cbt:manage" ∷ "cbt:publish" ∷ "transport:read" ∷ "transport:manage" ∷ "clinic:read"
    ∷ "clinic:manage" ∷ "inventory:read" ∷ "inventory:manage" ∷ "budgets:read" ∷ "budgets:manage"
    ∷ "student_attendance:read" ∷ "student_attendance:view_all" ∷ "student_attendance:create"
    ∷ "student_attendance:update" ∷ "staff_attendance:read" ∷ "staff_attendance:view_all"
    ∷ "staff_attendance:create" ∷ "biometric:configure" ∷ "biometric:verify" ∷ "notifications:view"
    ∷ "notifications:manage" ∷ "fees:view" ∷ "fee_structures:read" ∷ "payments:view"
    ∷ "invoices:read" ∷ "students:read" ∷ "students:create" ∷ "students:update"
    ∷ "student_records:view" ∷ "system_config:view" ∷ "nursery:read" ∷ "nursery:manage" ∷ []

abbrev pub administrative_staff_permissions : List String
administrative_staff_permissions =
    "ai:use" ∷ "students:create" ∷ "students:read" ∷ "students:update" ∷ "student_records:view"
    ∷ "student_records:update" ∷ "classes:read" ∷ "correspondence:manage" ∷ "calendar:manage"
    ∷ "cbt:read" ∷ "cbt:manage" ∷ "transport:read" ∷ "transport:manage" ∷ "clinic:read"
    ∷ "clinic:manage" ∷ "inventory:read" ∷ "inventory:manage" ∷ "budgets:read" ∷ "budgets:manage"
    ∷ "announcements:read" ∷ "reports:view" ∷ "dashboards:view" ∷ []

abbrev pub head_teacher_permissions : List String
head_teacher_permissions = school_leader_permissions ++ ("nursery:read" ∷ "nursery:manage" ∷ [])

abbrev pub principal_permissions : List String
principal_permissions = school_leader_permissions

abbrev pub vice_principal_permissions : List String
vice_principal_permissions = school_leader_permissions

abbrev pub assistant_head_teacher_permissions : List String
assistant_head_teacher_permissions =
    "ai:use" ∷ "results:read" ∷ "results:view_all" ∷ "students:update" ∷ "reports:view"
    ∷ "reports:generate" ∷ "analytics:view" ∷ "curriculum:view" ∷ "classes:read" ∷ "subjects:read"
    ∷ "staff:read" ∷ "staff_records:view" ∷ "staff_attendance:read" ∷ "staff_attendance:view_all"
    ∷ "staff_attendance:create" ∷ "dashboards:view" ∷ "nursery:read" ∷ "nursery:manage" ∷ []

abbrev pub class_teacher_permissions : List String
class_teacher_permissions =
    "ai:use" ∷ "sync:write" ∷ "timetable:read" ∷ "lesson_notes:read" ∷ "lesson_notes:manage"
    ∷ "cbt:read" ∷ "cbt:manage" ∷ "transport:read" ∷ "clinic:read" ∷ "student_attendance:create"
    ∷ "student_attendance:read" ∷ "student_attendance:update" ∷ "staff_attendance:create"
    ∷ "staff_attendance:read" ∷ "biometric:configure" ∷ "biometric:verify" ∷ "results:create"
    ∷ "results:read" ∷ "results:update" ∷ "assignments:create" ∷ "assignments:read"
    ∷ "assignments:update" ∷ "assignments:delete" ∷ "correspondence:manage" ∷ "announcements:create"
    ∷ "announcements:read" ∷ "students:read" ∷ "student_records:view" ∷ "classes:read"
    ∷ "subjects:read" ∷ "notifications:view" ∷ "dashboards:view" ∷ "nursery:read" ∷ "nursery:manage"
    ∷ []

abbrev pub subject_teacher_permissions : List String
subject_teacher_permissions =
    "ai:use" ∷ "sync:write" ∷ "timetable:read" ∷ "lesson_notes:read" ∷ "lesson_notes:manage"
    ∷ "cbt:read" ∷ "cbt:manage" ∷ "transport:read" ∷ "clinic:read" ∷ "results:create"
    ∷ "results:read" ∷ "results:update" ∷ "staff_attendance:create" ∷ "staff_attendance:read"
    ∷ "biometric:configure" ∷ "biometric:verify" ∷ "assignments:create" ∷ "assignments:read"
    ∷ "assignments:update" ∷ "assignments:delete" ∷ "students:read" ∷ "student_records:view"
    ∷ "classes:read" ∷ "subjects:read" ∷ "announcements:read" ∷ "notifications:view"
    ∷ "dashboards:view" ∷ []

abbrev pub bursar_permissions : List String
bursar_permissions =
    "inventory:read" ∷ "inventory:manage" ∷ "budgets:read" ∷ "budgets:manage" ∷ "payroll:read"
    ∷ "payroll:manage" ∷ "analytics:view" ∷ "fee_structures:create" ∷ "fee_structures:read"
    ∷ "fee_structures:update" ∷ "fee_structures:delete" ∷ "fees:view" ∷ "fees:manage"
    ∷ "payments:view" ∷ "payments:process" ∷ "biometric:verify" ∷ "staff_attendance:create"
    ∷ "staff_attendance:read" ∷ "invoices:create" ∷ "invoices:read" ∷ "scholarships:manage"
    ∷ "refunds:process" ∷ "reports:view" ∷ "reports:generate" ∷ "reports:export"
    ∷ "notifications:view" ∷ "dashboards:view" ∷ "students:read" ∷ "classes:read" ∷ []

abbrev pub student_permissions : List String
student_permissions =
    "ai:use" ∷ "consent:read" ∷ "hostel:read" ∷ "push:register" ∷ "timetable:read"
    ∷ "lesson_notes:read" ∷ "cbt:read" ∷ "cbt:take" ∷ "transport:read" ∷ "clinic:read"
    ∷ "results:read" ∷ "student_attendance:read" ∷ "assignments:read" ∷ "announcements:read"
    ∷ "fees:view" ∷ "notifications:view" ∷ "dashboards:view" ∷ []

abbrev pub parent_permissions : List String
parent_permissions =
    "ai:use" ∷ "consent:read" ∷ "consent:respond" ∷ "hostel:read" ∷ "push:register"
    ∷ "timetable:read" ∷ "lesson_notes:read" ∷ "cbt:read" ∷ "transport:read" ∷ "clinic:read"
    ∷ "results:read" ∷ "student_attendance:read" ∷ "assignments:read" ∷ "announcements:read"
    ∷ "fees:view" ∷ "payments:process" ∷ "biometric:verify" ∷ "notifications:view"
    ∷ "correspondence:manage" ∷ "dashboards:view" ∷ []

abbrev pub driver_permissions : List String
driver_permissions =
    "transport:read" ∷ "dashboards:view" ∷ "notifications:view" ∷ "students:read"
    ∷ "announcements:read" ∷ []

abbrev pub guard_permissions : List String
guard_permissions =
    "dashboards:view" ∷ "notifications:view" ∷ "biometric:verify" ∷ "students:read"
    ∷ "announcements:read" ∷ []

abbrev pub nurse_permissions : List String
nurse_permissions =
    "clinic:read" ∷ "clinic:manage" ∷ "dashboards:view" ∷ "notifications:view" ∷ "students:read"
    ∷ "results:read" ∷ "announcements:read" ∷ []

-- `ROLE_PERMISSIONS`.
unfoldable pub role_permissions : Dict (List String)
role_permissions =
    ("director", director_permissions)
    ∷ ("it_admin", it_admin_permissions)
    ∷ ("school_admin", school_admin_permissions)
    ∷ ("administrative_staff", administrative_staff_permissions)
    ∷ ("head_teacher", head_teacher_permissions)
    ∷ ("principal", principal_permissions)
    ∷ ("vice_principal", vice_principal_permissions)
    ∷ ("assistant_head_teacher", assistant_head_teacher_permissions)
    ∷ ("class_teacher", class_teacher_permissions)
    ∷ ("subject_teacher", subject_teacher_permissions)
    ∷ ("bursar", bursar_permissions)
    ∷ ("student", student_permissions)
    ∷ ("parent", parent_permissions)
    ∷ ("driver", driver_permissions)
    ∷ ("guard", guard_permissions)
    ∷ ("nurse", nurse_permissions)
    ∷ []

unfoldable pub role_only_capabilities : List String
role_only_capabilities =
    "payments:process" ∷ "refunds:process" ∷ "fees:manage" ∷ "fee_structures:create"
    ∷ "fee_structures:update" ∷ "fee_structures:delete" ∷ "scholarships:manage" ∷ "invoices:create"
    ∷ "results:approve" ∷ "results:update" ∷ "results:create" ∷ "users:manage" ∷ "users:delete"
    ∷ "users:create" ∷ "accounts:create" ∷ "accounts:manage" ∷ "accounts:reset" ∷ "roles:assign"
    ∷ "roles:manage" ∷ "system_config:manage" ∷ "audit_logs:view" ∷ "ai_features:configure" ∷ []

-- ===== src/PlatformConfig/Config.antt =====
-- The configuration of a tenant that the control plane hands out
-- (web-server/src/platform-config/runtime-config.types.ts). Left out are the parts that no function
-- of these modules reads: subscription, quotas, fee splits, payment and tutoring settings.
use multi_academy_backend.Prelude.{ℕ, String, Bool, Option, List, [], ◌∷◌}
use multi_academy_backend.Prelude.Dict.{Dict}

pub data TenantStatus : Type 0 where
  active suspended restricted blacklisted provisioning archived : TenantStatus

pub record Enforcement : Type 0 where
  pub school_blacklisted : Bool
  pub blocked_user_ids : List String
  pub blocked_emails : List String
  pub blocked_ip_cidrs : List String
  pub capability_freezes : List String
  pub deny_login : Bool
  pub message : Option String

pub record TenantRuntimeConfig : Type 0 where
  pub tenant_id : String
  pub status : TenantStatus
  pub features : Dict Bool
  -- The provider chosen for each capability.
  pub providers : Dict String
  pub enforcement : Enforcement
  pub kill_switches : List String
  pub ttl_seconds : Option ℕ
  pub config_version : ℕ

-- Features that fail closed when the control plane is unreachable.
abbrev pub fail_closed_features : List String
fail_closed_features =
    "fees.gateway" ∷ "fees.advance_payment" ∷ "comms.sms" ∷ "comms.email" ∷ "comms.push"
    ∷ "ai.assistant" ∷ "ai.support_chatbot" ∷ "ai.performance_detection"
    ∷ "ai.performance_recommendations" ∷ "ai.risk_analytics" ∷ "ai.essay_grading" ∷ "ai.tutor"
    ∷ "ai.teacher_copilot" ∷ "ai.report_comments" ∷ "ai.timetable_solver" ∷ "tutoring.marketplace"
    ∷ "tutoring.payments" ∷ "tutoring.ai_hybrid" ∷ "comms.meetings" ∷ []

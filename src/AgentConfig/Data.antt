-- ===== src/AgentConfig/Data.antt =====
-- The configuration of the agent, its input, its versions and its database: services/agent/models/global_agent_config.go
-- and services/admin/application/agent_config_service.go.
use lan_sync.Prelude.{String, Bool, Option}
use lan_sync.Prelude.Int.{ℤ}
use lan_sync.Prelude.Result.{Result}
use lan_sync.AdminFiles.{AuditAction}

pub record GlobalAgentConfig (F : Type 0) : Type 0 where
  pub id : ℤ
  pub global_enabled : Bool
  pub default_model : String
  pub embedding_model : String
  pub temperature : F
  pub max_tokens : ℤ
  pub rag_top_k : ℤ
  pub rag_similarity_threshold : F
  pub chunk_size : ℤ
  pub chunk_overlap : ℤ
  pub moderation_enabled : Bool
  pub moderation_model : String
  pub moderation_threshold : F
  pub tool_calling_enabled : Bool
  pub auto_kick_enabled : Bool
  pub auto_ban_enabled : Bool
  pub system_prompt : String
  pub moderation_prompt : String
  pub rag_prompt : String
  pub tool_calling_prompt : String
  pub updated_at : ℤ
  pub created_at : ℤ

pub record GlobalAgentConfigInput (F : Type 0) : Type 0 where
  pub global_enabled : Option Bool
  pub default_model : String
  pub embedding_model : String
  pub temperature : F
  pub max_tokens : ℤ
  pub rag_top_k : ℤ
  pub rag_similarity_threshold : F
  pub chunk_size : ℤ
  pub chunk_overlap : ℤ
  pub moderation_enabled : Option Bool
  pub moderation_model : String
  pub moderation_threshold : F
  pub tool_calling_enabled : Option Bool
  pub auto_kick_enabled : Option Bool
  pub auto_ban_enabled : Option Bool
  pub system_prompt : String
  pub moderation_prompt : String
  pub rag_prompt : String
  pub tool_calling_prompt : String

-- Without its id, by which the database sorts.
pub record AgentConfigHistory : Type 0 where
  pub config_id : ℤ
  pub version : ℤ
  pub before_data : String
  pub after_data : String
  pub admin_user_id : ℤ
  pub admin_username : String
  pub created_at : ℤ

pub data DbError : Type 0 where
  record_not_found query_failed : DbError

pub data Error : Type 0 where
  no_history no_snapshot rollback_failed database_failed : Error

pub record Audit : Type 0 where
  pub by : AuditAction
  pub action : String
  pub target_id : ℤ
  pub before_data : String
  pub after_data : String

-- The row with id 1, the histories of config_id 1, and the greatest version among them or 0. A row that is created
-- or saved is returned with the times that the database layer sets.
pub record Database (F S : Type 0) : Type 0 where
  pub first_config : S → Result DbError (GlobalAgentConfig F)
  pub create_config : GlobalAgentConfig F → S → Result DbError (GlobalAgentConfig F) × S
  pub save_config : GlobalAgentConfig F → S → Result DbError (GlobalAgentConfig F) × S
  pub latest_history : S → Result DbError AgentConfigHistory
  pub max_version : S → Result DbError ℤ
  pub create_history : AgentConfigHistory → S → Result DbError (Unit {0}) × S
  pub has_audit : Bool
  pub log : Audit → S → S

-- What the configuration needs of float64 and of encoding/json. `decode` reads a text into a configuration.
pub record Codec (F : Type 0) : Type 0 where
  pub is_positive : F → Bool
  pub default_float : String → F  -- the constant that the source writes so
  pub encode : GlobalAgentConfig F → String
  pub decode : String → GlobalAgentConfig F → Option (GlobalAgentConfig F)

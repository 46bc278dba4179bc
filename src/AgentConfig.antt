-- ===== src/AgentConfig.antt =====
-- The global configuration of the agent and its versions: services/admin/application/agent_config_service.go without
-- the list of the versions. The database and the audit log are parameters over a state, as are the numbers of type
-- float64 and the JSON of a configuration: `encode` is the text that json.Marshal makes, "" where it fails.
mod Data
pub mod Rollback
mod Tests
use lan_sync.Prelude.{String, string_eq, Bool, true, false, Option, none, some, ◌==◌, if◌then◌else◌}
use lan_sync.Prelude.Int.{ℤ, pos, ltb_ℤ, ◌+ℤ◌, wrap64}
use lan_sync.Prelude.Result.{Result, ok, err}
use lan_sync.AdminFiles.{AuditAction}
pub use Data.{
  GlobalAgentConfig, GlobalAgentConfigInput, AgentConfigHistory, DbError, Error, Audit, Database,
  Codec, record_not_found, query_failed, no_history, no_snapshot, rollback_failed, database_failed,
}

abbrev pub or_bool : Option Bool → Bool → Bool
or_bool none old = old
or_bool (some new) old = new

abbrev pub or_text : String → String → String
or_text new old = if new == "" then old else new

abbrev pub or_int : ℤ → ℤ → ℤ
or_int new old = if ltb_ℤ (pos 0) new then new else old

module _ {F : Type 0} (codec : Codec F) where
  abbrev pub or_float : F → F → F
  or_float new old = if codec.is_positive new then new else old

  abbrev pub default_global_agent_config : GlobalAgentConfig F
  default_global_agent_config = record {
    id = pos 1;
    global_enabled = true;
    default_model = "deepseek-chat";
    embedding_model = "text-embedding-v3";
    temperature = codec.default_float "0.70";
    max_tokens = pos 4096;
    rag_top_k = pos 5;
    rag_similarity_threshold = codec.default_float "0.70";
    chunk_size = pos 800;
    chunk_overlap = pos 120;
    moderation_enabled = true;
    moderation_model = "deepseek-chat";
    moderation_threshold = codec.default_float "0.75";
    tool_calling_enabled = true;
    auto_kick_enabled = false;
    auto_ban_enabled = false;
    system_prompt = "";
    moderation_prompt = "";
    rag_prompt = "";
    tool_calling_prompt = "";
    updated_at = pos 0;
    created_at = pos 0;
  }

  unfoldable pub changed_config :
      GlobalAgentConfigInput F → GlobalAgentConfig F → GlobalAgentConfig F
  changed_config input cfg = record cfg {
    global_enabled = or_bool input.global_enabled cfg.global_enabled;
    default_model = or_text input.default_model cfg.default_model;
    embedding_model = or_text input.embedding_model cfg.embedding_model;
    temperature = or_float input.temperature cfg.temperature;
    max_tokens = or_int input.max_tokens cfg.max_tokens;
    rag_top_k = or_int input.rag_top_k cfg.rag_top_k;
    rag_similarity_threshold = or_float input.rag_similarity_threshold cfg.rag_similarity_threshold;
    chunk_size = or_int input.chunk_size cfg.chunk_size;
    chunk_overlap = or_int input.chunk_overlap cfg.chunk_overlap;
    moderation_enabled = or_bool input.moderation_enabled cfg.moderation_enabled;
    moderation_model = or_text input.moderation_model cfg.moderation_model;
    moderation_threshold = or_float input.moderation_threshold cfg.moderation_threshold;
    tool_calling_enabled = or_bool input.tool_calling_enabled cfg.tool_calling_enabled;
    auto_kick_enabled = or_bool input.auto_kick_enabled cfg.auto_kick_enabled;
    auto_ban_enabled = or_bool input.auto_ban_enabled cfg.auto_ban_enabled;
    system_prompt = or_text input.system_prompt cfg.system_prompt;
    moderation_prompt = or_text input.moderation_prompt cfg.moderation_prompt;
    rag_prompt = or_text input.rag_prompt cfg.rag_prompt;
    tool_calling_prompt = or_text input.tool_calling_prompt cfg.tool_calling_prompt;
  }

  module _ {S : Type 0} (db : Database F S) where
    abbrev pub config_created :
        Result DbError (GlobalAgentConfig F) × S → Result Error (GlobalAgentConfig F) × S
    config_created (err e, s) = (err database_failed, s)
    config_created (ok cfg, s) = (ok cfg, s)

    abbrev pub config_found :
        S → Result DbError (GlobalAgentConfig F) → Result Error (GlobalAgentConfig F) × S
    config_found s (ok cfg) = (ok cfg, s)
    config_found s (err query_failed) = (err database_failed, s)
    config_found s (err record_not_found) =
        config_created (db.create_config default_global_agent_config s)

    abbrev pub get_or_create : S → Result Error (GlobalAgentConfig F) × S
    get_or_create s = config_found s (db.first_config s)

    -- `now` is time.Now().
    abbrev pub append_version :
        ℤ → ℤ → String → String → AuditAction → S → Result DbError ℤ → Result DbError (Unit {0}) × S
    append_version now id before after action s (err e) = (err e, s)
    append_version now id before after action s (ok max_version) =
        db.create_history
          (record {
            config_id = id;
            version = wrap64 (max_version +ℤ pos 1);
            before_data = before;
            after_data = after;
            admin_user_id = action.admin_user_id;
            admin_username = action.admin_name;
            created_at = now;
          })
          s

    abbrev pub append_history :
        ℤ → ℤ → String → String → AuditAction → S → Result DbError (Unit {0}) × S
    append_history now id before after action s =
        append_version now id before after action s (db.max_version s)

    -- The transaction: where its body fails, the state is the one before it.
    abbrev pub appended :
        GlobalAgentConfig F
        → S
        → Result DbError (Unit {0}) × S
        → Result Error (GlobalAgentConfig F) × S
    appended cfg before_all (err e, s) = (err database_failed, before_all)
    appended cfg before_all (ok _, s) = (ok cfg, s)

    abbrev pub config_saved :
        ℤ
        → String
        → AuditAction
        → S
        → Result DbError (GlobalAgentConfig F) × S
        → Result Error (GlobalAgentConfig F) × S
    config_saved now before action before_all (err e, s) = (err database_failed, before_all)
    config_saved now before action before_all (ok cfg, s) =
        appended cfg before_all (append_history now cfg.id before (codec.encode cfg) action s)

    unfoldable pub store_config :
        ℤ → String → AuditAction → GlobalAgentConfig F → S → Result Error (GlobalAgentConfig F) × S
    store_config now before action cfg s = config_saved now before action s (db.save_config cfg s)

    abbrev pub config_audited :
        (GlobalAgentConfig F → Audit)
        → Result Error (GlobalAgentConfig F) × S
        → Result Error (GlobalAgentConfig F) × S
    config_audited entry (err e, s) = (err e, s)
    config_audited entry (ok cfg, s) = (ok cfg, if db.has_audit then db.log (entry cfg) s else s)

    abbrev pub update_found :
        ℤ
        → GlobalAgentConfigInput F
        → AuditAction
        → Result Error (GlobalAgentConfig F) × S
        → Result Error (GlobalAgentConfig F) × S
    update_found now input action (err e, s) = (err e, s)
    update_found now input action (ok old, s) =
        config_audited
          (λ (cfg : GlobalAgentConfig F). record {
            by = action;
            action = "agent.config.update";
            target_id = cfg.id;
            before_data = codec.encode old;
            after_data = codec.encode cfg;
          })
          (store_config now (codec.encode old) action (changed_config input old) s)

    unfoldable pub update_config :
        ℤ → GlobalAgentConfigInput F → AuditAction → S → Result Error (GlobalAgentConfig F) × S
    update_config now input action s = update_found now input action (get_or_create s)

    abbrev pub rollback_decoded :
        ℤ
        → AuditAction
        → GlobalAgentConfig F
        → S
        → Option (GlobalAgentConfig F)
        → Result Error (GlobalAgentConfig F) × S
    rollback_decoded now action current s none = (err rollback_failed, s)
    rollback_decoded now action current s (some old) =
        config_audited
          (λ (cfg : GlobalAgentConfig F). record {
            by = action;
            action = "agent.config.rollback";
            target_id = pos 1;
            before_data = "";
            after_data = "";
          })
          (store_config now (codec.encode current) action (record old { id = pos 1 }) s)

    abbrev pub rollback_found :
        ℤ
        → AuditAction
        → String
        → Result Error (GlobalAgentConfig F) × S
        → Result Error (GlobalAgentConfig F) × S
    rollback_found now action snapshot (err e, s) = (err e, s)
    rollback_found now action snapshot (ok current, s) =
        rollback_decoded now action current s (codec.decode snapshot current)

    abbrev pub rollback_to :
        ℤ
        → AuditAction
        → S
        → Result DbError AgentConfigHistory
        → Result Error (GlobalAgentConfig F) × S
    rollback_to now action s (err record_not_found) = (err no_history, s)
    rollback_to now action s (err query_failed) = (err database_failed, s)
    rollback_to now action s (ok latest) =
        if latest.before_data == ""
        then (err no_snapshot, s)
        else rollback_found now action latest.before_data (get_or_create s)

    unfoldable pub rollback_config : ℤ → AuditAction → S → Result Error (GlobalAgentConfig F) × S
    rollback_config now action s = rollback_to now action s (db.latest_history s)

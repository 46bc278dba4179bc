-- ===== src/AgentConfig/Tests.antt =====
-- An update that is rolled back twice (services/admin/application/agent_config_service.go).
use lan_sync.Prelude.{
  ℕ, ◌+◌, ◌*◌, ◌/◌, arith, ltb, ◌≡◌, refl, sym, ap, string_eq, true, false, Option, none, some,
  ◌==◌, if◌then◌else◌,
}
use lan_sync.Prelude.Int.{pos, int_eq}
use lan_sync.Prelude.Result.{Result, ok, err, ok-injective}
use lan_sync.AdminFiles.{AuditAction}
use lan_sync.AgentConfig.{
  GlobalAgentConfig, GlobalAgentConfigInput, AgentConfigHistory, Database, Codec, DbError,
  record_not_found, changed_config, update_config, rollback_config, store_config,
}
use lan_sync.AgentConfig.Rollback.{IsDatabase, IsSame, IsToggled, rounded, rollback-update}

-- A number of type float64 is one of thousandths here, which a column rounds to hundredths.
abbrev round : ℕ → ℕ
round f = (f + 5) / 10 * 10

abbrev MilliConfig : Type 0
MilliConfig = GlobalAgentConfig ℕ

abbrev input : GlobalAgentConfigInput ℕ
input = record {
  global_enabled = none;
  default_model = "";
  embedding_model = "";
  temperature = 705;
  max_tokens = pos 100;
  rag_top_k = pos 0;
  rag_similarity_threshold = 0;
  chunk_size = pos 0;
  chunk_overlap = pos 0;
  moderation_enabled = none;
  moderation_model = "";
  moderation_threshold = 0;
  tool_calling_enabled = none;
  auto_kick_enabled = none;
  auto_ban_enabled = some true;
  system_prompt = "";
  moderation_prompt = "";
  rag_prompt = "";
  tool_calling_prompt = "";
}

abbrev old : MilliConfig
old = record {
  id = pos 1;
  global_enabled = true;
  default_model = "a";
  embedding_model = "b";
  temperature = 700;
  max_tokens = pos 4096;
  rag_top_k = pos 5;
  rag_similarity_threshold = 700;
  chunk_size = pos 800;
  chunk_overlap = pos 120;
  moderation_enabled = true;
  moderation_model = "a";
  moderation_threshold = 750;
  tool_calling_enabled = true;
  auto_kick_enabled = false;
  auto_ban_enabled = false;
  system_prompt = "";
  moderation_prompt = "";
  rag_prompt = "";
  tool_calling_prompt = "";
  updated_at = pos 3;
  created_at = pos 3;
}

abbrev updated : MilliConfig
updated = record old { temperature = 705; max_tokens = pos 100; auto_ban_enabled = true }

-- What the table holds of it.
abbrev kept : MilliConfig
kept = record updated { temperature = 710 }

abbrev codec : Codec ℕ
codec = record {
  is_positive = λ f. ltb 0 f;
  default_float = λ text. 700;
  encode = λ c. if c.max_tokens == pos 4096 then "old" else "updated";
  decode = λ text c. if text == "old" then some old else some kept;
}

record Tables : Type 0 where
  config : MilliConfig
  latest : Option AgentConfigHistory

abbrev history_of : Option AgentConfigHistory → Result DbError AgentConfigHistory
history_of none = err record_not_found
history_of (some history) = ok history

abbrev row : MilliConfig → MilliConfig
row c = record (rounded round c) { id = pos 1 }

abbrev db : Database ℕ Tables
db = record {
  first_config = λ s. ok (row s.config);
  create_config = λ c s. (ok c, record s { config = c });
  save_config = λ c s. (ok c, record s { config = c });
  latest_history = λ s. history_of s.latest;
  max_version = λ s. ok (pos 0);
  create_history = λ h s. (ok tt, record s { latest = some h });
  has_audit = true;
  log = λ entry s. s;
}

round_once : (f : ℕ) → round (round f) ≡ round f
round_once f = omega arith

row-exact : (c : MilliConfig) → rounded round (row c) ≡ row c
row-exact c = λ i. record (row c) {
  temperature = round_once c.temperature i;
  rag_similarity_threshold = round_once c.rag_similarity_threshold i;
  moderation_threshold = round_once c.moderation_threshold i;
}

row-eq : (c : MilliConfig) → c.id ≡ pos 1 → row c ≡ rounded round c
row-eq c one = λ i. record (rounded round c) { id = sym one i }

db-IsDatabase : IsDatabase round db
db-IsDatabase = record {
  id = λ s cfg h. sym (ap (λ (c : MilliConfig). c.id) (ok-injective h));
  exact = λ s cfg h. rw (← ok-injective h) (row-exact s.config);
  save = λ cfg s one. (refl, (row cfg, refl, row-eq cfg one));
  append = λ history s one. ((history, refl, refl), refl);
  log = λ entry s. (refl, refl);
}

abbrev action : AuditAction
action = record {
  admin_user_id = pos 1;
  admin_name = "admin";
  request_id = "";
  remote_ip = "";
  user_agent = "";
}

abbrev start : Tables
start = record { config = old; latest = none }

abbrev after : Tables
after = (update_config codec db (pos 9) input action start).1

rollback-update_example :
    IsSame (changed_config codec input old) updated
    × IsSame (rounded round (changed_config codec input old)) kept
    × IsToggled round codec db
        (pos 9)
        action
        old
        kept
        after
        (rollback_config codec db (pos 9) action after)
unfolding update_config store_config changed_config
rollback-update_example =
    rollback-update round codec db db-IsDatabase (pos 9) input action start after old updated kept
      refl refl refl refl refl (λ d. refl) (λ d. refl)

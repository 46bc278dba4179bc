-- ===== src/AgentConfig/Rollback.antt =====
-- Rollback takes the configuration back to what the last change found
-- (services/admin/application/agent_config_service.go).
use lan_sync.Prelude.{
  ◌≡◌, refl, sym, ap, ◌∙◌, String, string_eq, Bool, true, false, some, ◌==◌, if◌then◌else◌,
}
use mathlib.Core.Path.{subst}
use lan_sync.Prelude.Int.{ℤ, pos, ◌+ℤ◌, wrap64}
use lan_sync.Prelude.Result.{Result, ok, err, ok-injective}
use lan_sync.AdminFiles.{AuditAction}
use lan_sync.AgentConfig.{
  GlobalAgentConfig, GlobalAgentConfigInput, AgentConfigHistory, Audit, Database, Codec, DbError,
  Error, changed_config, append_version, appended, config_saved, store_config, config_audited,
  update_config, rollback_config,
}

-- A configuration with other times of the database layer.
abbrev pub IsSame : {F : Type 0} → GlobalAgentConfig F → GlobalAgentConfig F → Type 0
IsSame cfg saved =
    saved ≡ record cfg { updated_at = saved.updated_at; created_at = saved.created_at }

-- The columns decimal(3,2) round the three numbers of type float64.
abbrev pub rounded : {F : Type 0} → (F → F) → GlobalAgentConfig F → GlobalAgentConfig F
rounded round cfg = record cfg {
  temperature = round cfg.temperature;
  rag_similarity_threshold = round cfg.rag_similarity_threshold;
  moderation_threshold = round cfg.moderation_threshold;
}

module _ {F S : Type 0} (round : F → F) (db : Database F S) where
  -- A read gives the configuration, up to the times.
  abbrev pub IsRead : GlobalAgentConfig F → S → Type 0
  IsRead cfg s = (held : GlobalAgentConfig F) × (db.first_config s ≡ ok held) × IsSame cfg held

  abbrev IsSaved : GlobalAgentConfig F → Result DbError (GlobalAgentConfig F) × S → Type 0
  IsSaved cfg (err e, s1) = Unit
  IsSaved cfg (ok saved, s1) = IsSame cfg saved × IsRead (rounded round cfg) s1

  -- The last version found `before`.
  abbrev HasFound : String → S → Type 0
  HasFound before s =
      (h : AgentConfigHistory) × (db.latest_history s ≡ ok h) × (h.before_data ≡ before)

  abbrev IsAppended : String → S → Result DbError (Unit {0}) × S → Type 0
  IsAppended before s (err e, s1) = Unit
  IsAppended before s (ok _, s1) = HasFound before s1 × (db.first_config s1 ≡ db.first_config s)

  -- What the two tables do: a saved row is read back as its columns round it, a row that is read is one that they
  -- hold as it is, and a new history is the latest one.
  pub record IsDatabase : Type 0 where
    pub id : (s : S) (cfg : GlobalAgentConfig F) → db.first_config s ≡ ok cfg → cfg.id ≡ pos 1
    pub exact :
        (s : S) (cfg : GlobalAgentConfig F) → db.first_config s ≡ ok cfg → rounded round cfg ≡ cfg
    pub save :
        (cfg : GlobalAgentConfig F) (s : S) → cfg.id ≡ pos 1 → IsSaved cfg (db.save_config cfg s)
    pub append :
        (history : AgentConfigHistory) (s : S)
        → history.config_id ≡ pos 1
        → IsAppended history.before_data s (db.create_history history s)
    pub log :
        (entry : Audit) (s : S)
        → (db.first_config (db.log entry s) ≡ db.first_config s)
          × (db.latest_history (db.log entry s) ≡ db.latest_history s)

  -- `cfg` is returned and the table holds `held`, and the last version found `before`; or nothing has changed.
  abbrev pub IsStored :
      GlobalAgentConfig F
      → GlobalAgentConfig F
      → String
      → S
      → Result Error (GlobalAgentConfig F) × S
      → Type 0
  IsStored cfg held before s (err e, s1) = s1 ≡ s
  IsStored cfg held before s (ok saved, s1) = IsSame cfg saved × IsRead held s1 × HasFound before s1

module _ {F S : Type 0} (round : F → F) (codec : Codec F) (db : Database F S) where
  -- A rollback that gives `old`, and the rollback after it, which gives `new` again; or nothing has changed.
  abbrev pub IsToggled :
      ℤ
      → AuditAction
      → GlobalAgentConfig F
      → GlobalAgentConfig F
      → S
      → Result Error (GlobalAgentConfig F) × S
      → Type 0
  IsToggled now by old new s (err e, s1) = s1 ≡ s
  IsToggled now by old new s (ok back, s1) =
      IsSame old back
      × ((current : GlobalAgentConfig F) × (db.first_config s1 ≡ ok current)
          × IsSame old current
          × IsStored round db new new (codec.encode current) s1
              (rollback_config codec db now by s1))

module _ {F S : Type 0} (round : F → F) (codec : Codec F) (db : Database F S)
    (law : IsDatabase round db) where
  IsRead-after :
      (cfg : GlobalAgentConfig F) (s s1 : S)
      → db.first_config s1 ≡ db.first_config s
      → IsRead round db cfg s
      → IsRead round db cfg s1
  IsRead-after cfg s s1 e (held, read, same) = (held, e ∙ read, same)

  appended-IsStored :
      (cfg saved : GlobalAgentConfig F) (before : String) (s s1 : S)
      (r : Result DbError (Unit {0}) × S)
      → IsSame cfg saved
      → IsRead round db (rounded round cfg) s1
      → IsAppended round db before s1 r
      → IsStored round db cfg (rounded round cfg) before s (appended codec db saved s r)
  appended-IsStored cfg saved before s s1 (err e, s2) same read h = refl
  appended-IsStored cfg saved before s s1 (ok _, s2) same read (found, kept) =
      (same, IsRead-after (rounded round cfg) s1 s2 kept read, found)

  -- The version that is written names what was found; its number plays no part here.
  append_version-IsStored :
      (now : ℤ) (action : AuditAction) (cfg saved : GlobalAgentConfig F) (before : String)
      (s s1 : S) (r : Result DbError ℤ)
      → IsSame cfg saved
      → cfg.id ≡ pos 1
      → IsRead round db (rounded round cfg) s1
      → IsStored round db cfg (rounded round cfg) before s (
          appended codec db saved s
            (append_version codec db now saved.id before (codec.encode saved) action s1 r))
  append_version-IsStored now action cfg saved before s s1 (err e) same one read = refl
  append_version-IsStored now action cfg saved before s s1 (ok v) same one read =
      let version : AgentConfigHistory = record {
        config_id = saved.id;
        version = wrap64 (v +ℤ pos 1);
        before_data = before;
        after_data = codec.encode saved;
        admin_user_id = action.admin_user_id;
        admin_username = action.admin_name;
        created_at = now;
      } in
      appended-IsStored cfg saved before s s1 _ same read
        (law.append version s1 (ap (λ (c : GlobalAgentConfig F). c.id) same ∙ one))

  config_saved-IsStored :
      (now : ℤ) (action : AuditAction) (cfg : GlobalAgentConfig F) (before : String) (s : S)
      (r : Result DbError (GlobalAgentConfig F) × S)
      → cfg.id ≡ pos 1
      → IsSaved round db cfg r
      → IsStored round db cfg
          (rounded round cfg)
          before
          s
          (config_saved codec db now before action s r)
  config_saved-IsStored now action cfg before s (err e, s1) one h = refl
  config_saved-IsStored now action cfg before s (ok saved, s1) one h =
      append_version-IsStored now action cfg saved before s s1 (db.max_version s1) h.0 one h.1

  store_config-IsStored :
      (now : ℤ) (action : AuditAction) (cfg : GlobalAgentConfig F) (before : String) (s : S)
      → cfg.id ≡ pos 1
      → IsStored round db cfg
          (rounded round cfg)
          before
          s
          (store_config codec db now before action cfg s)
  unfolding store_config
  store_config-IsStored now action cfg before s one =
      config_saved-IsStored now action cfg before s (db.save_config cfg s) one (law.save cfg s one)

  log-first :
      (b : Bool) (entry : Audit) (s : S)
      → (db.first_config (if b then db.log entry s else s) ≡ db.first_config s)
        × (db.latest_history (if b then db.log entry s else s) ≡ db.latest_history s)
  log-first true entry s = law.log entry s
  log-first false entry s = (refl, refl)

  config_audited-IsStored :
      (entry : GlobalAgentConfig F → Audit) (cfg held : GlobalAgentConfig F) (before : String)
      (s : S) (r : Result Error (GlobalAgentConfig F) × S)
      → IsStored round db cfg held before s r
      → IsStored round db cfg held before s (config_audited codec db entry r)
  config_audited-IsStored entry cfg held before s (err e, s1) h = h
  config_audited-IsStored entry cfg held before s (ok saved, s1) (same, read, (last, at, named)) =
      let (first, latest) = log-first db.has_audit (entry saved) s1 in
      (same, IsRead-after held s1 _ first read, (last, latest ∙ at, named))

  changed_config-id :
      (input : GlobalAgentConfigInput F) (cfg : GlobalAgentConfig F)
      → (changed_config codec input cfg).id ≡ cfg.id
  unfolding changed_config
  changed_config-id input cfg = refl

  update_config-IsStored :
      (now : ℤ) (input : GlobalAgentConfigInput F) (action : AuditAction) (s : S)
      (old : GlobalAgentConfig F)
      → db.first_config s ≡ ok old
      → IsStored round db
          (changed_config codec input old)
          (rounded round (changed_config codec input old))
          (codec.encode old)
          s
          (update_config codec db now input action s)
  unfolding update_config
  update_config-IsStored now input action s old found = rw found (
      config_audited-IsStored _ (changed_config codec input old)
        (rounded round (changed_config codec input old)) (codec.encode old) s _
        (store_config-IsStored now action (changed_config codec input old) (codec.encode old) s
          (changed_config-id input old ∙ law.id s old found)))

  stored_exact :
      (now : ℤ) (action : AuditAction) (cfg : GlobalAgentConfig F) (before : String) (s : S)
      → cfg.id ≡ pos 1
      → rounded round cfg ≡ cfg
      → IsStored round db cfg cfg before s (store_config codec db now before action cfg s)
  stored_exact now action cfg before s one exact =
      subst
        (λ held.
          IsStored round db cfg held before s (store_config codec db now before action cfg s))
        exact (store_config-IsStored now action cfg before s one)

  -- Where the last version found `old`, Rollback stores it, and its own version finds the present one.
  rollback_config-IsStored :
      (now : ℤ) (action : AuditAction) (s : S) (old current : GlobalAgentConfig F)
      (latest : AgentConfigHistory)
      → db.latest_history s ≡ ok latest
      → latest.before_data ≡ codec.encode old
      → db.first_config s ≡ ok current
      → old.id ≡ pos 1
      → rounded round old ≡ old
      → codec.encode old == "" ≡ false
      → codec.decode (codec.encode old) current ≡ some old
      → IsStored round db old old (codec.encode current) s (rollback_config codec db now action s)
  unfolding rollback_config
  rollback_config-IsStored now action s old current latest last named found one exact text reads =
      let stored : GlobalAgentConfig F = record old { id = pos 1 } in
      let same : stored ≡ old = λ i. record old { id = sym one i } in
      rw (last, named, text, found, reads)
        (config_audited-IsStored _ old old (codec.encode current) s _ (
          subst
            (λ c.
              IsStored round db old old (codec.encode current) s
                (store_config codec db now (codec.encode current) action c s))
            (sym same) (stored_exact now action old (codec.encode current) s one exact)))

  IsStored-IsToggled :
      (now : ℤ) (by : AuditAction) (old new : GlobalAgentConfig F) (s : S)
      (r : Result Error (GlobalAgentConfig F) × S)
      → new.id ≡ pos 1
      → rounded round new ≡ new
      → codec.encode new == "" ≡ false
      → ((d : GlobalAgentConfig F) → codec.decode (codec.encode new) d ≡ some new)
      → IsStored round db old old (codec.encode new) s r
      → IsToggled round codec db now by old new s r
  IsStored-IsToggled now by old new s (err e, s1) one exact text reads h = h
  IsStored-IsToggled now by old new s (ok back, s1) one exact text reads
        (same, (current, read, held), (last, at, named)) =
      (
        same,
        (
          current,
          read,
          held,
          rollback_config-IsStored now by s1 new current last at named read one exact text
              (reads current),
        ),
      )

  -- After a successful Update of a stored row the table holds the updated configuration as its columns round it; Rollback then gives
  -- the configuration that the Update found, and a second one the one that the table held after the Update. The
  -- table holds what each gives, up to the times that the database layer sets. A Rollback that returns an error
  -- changes nothing. It is taken that the JSON of both configurations reads back as what it was made of.
  pub rollback-update :
      (now : ℤ) (input : GlobalAgentConfigInput F) (by : AuditAction) (s s1 : S)
      (old new held : GlobalAgentConfig F)
      → db.first_config s ≡ ok old
      → update_config codec db now input by s ≡ (ok new, s1)
      → db.first_config s1 ≡ ok held
      → codec.encode old == "" ≡ false
      → codec.encode held == "" ≡ false
      → ((d : GlobalAgentConfig F) → codec.decode (codec.encode old) d ≡ some old)
      → ((d : GlobalAgentConfig F) → codec.decode (codec.encode held) d ≡ some held)
      → IsSame (changed_config codec input old) new
        × IsSame (rounded round (changed_config codec input old)) held
        × IsToggled round codec db now by old held s1 (rollback_config codec db now by s1)
  rollback-update now input by s s1 old new held found updated read text_old text_held reads_old
        reads_held =
      let (same, (there, read_there, rounds), (last, latest, named)) =
        subst
          (IsStored round db (changed_config codec input old)
            (rounded round (changed_config codec input old)) (codec.encode old) s)
          updated (update_config-IsStored now input by s old found) in
      let one_held : there ≡ held = ok-injective (sym read_there ∙ read) in
      (
        same,
        subst (IsSame (rounded round (changed_config codec input old))) one_held rounds,
        IsStored-IsToggled now by old held s1 _ (law.id s1 held read) (law.exact s1 held read)
            text_held reads_held
            (rollback_config-IsStored now by s1 old held last latest named read (law.id s old found)
              (law.exact s old found) text_old (reads_old held)),
      )

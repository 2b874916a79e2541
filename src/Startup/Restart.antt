-- ===== src/Startup/Restart.antt =====
-- When the server starts, and what it starts with after an earlier process.
use digital_square.Base.{
  String, ◌≡◌, ◌↔◌, ◌⊎◌, inl, inr, refl, sym, ap, subst, ◌∙◌, Option, none, some, true, List,
}
use digital_square.Codec.{Codec}
use digital_square.Errors.{Result, ok, err}
use digital_square.Action.{Outcome, result, Result-cases}
use digital_square.Config.{Config, load}
use digital_square.Wal.{Wal, WalEntry, new_wal}
use digital_square.Wal.Contents.{Stores, Holds}
use digital_square.Wal.Opening.{new_wal-Holds}
use digital_square.Startup.{
  zap_config, Fatal, Stage, logging, connecting, migrating, opening_log, caching, or_end,
  configured, ◌>>=◌, init, connect, migrate, reached, Surroundings, Process, log_path,
  new_redis_message_broker, start,
}

-- Every stage has done its work, and the process holds what they gave.
pub record IsStarted (S : Surroundings) (p : Process S) : Type 0 where
  pub logs : S.build (zap_config true) ≡ none
  pub configured : load S.env S.atoi S.parse_duration ≡ some p.cfg
  pub opened : S.Database
  pub connected : S.open_database p.cfg.database_url ≡ ok opened
  pub migrated : S.auto_migrate opened ≡ ok p.database
  pub opened_log : new_wal S.on_mkdir S.on_open log_path S.disk ≡ ok p.wal
  pub parsed : S.parse_url p.cfg.redis_url ≡ ok p.redis
  pub answers : S.ping p.redis ≡ none

>>=-inr :
    {A B : Type 0} (m : Fatal ⊎ A) (k : A → Fatal ⊎ B) (b : B)
    → (m >>= k) ≡ inr b
    → (a : A) × (m ≡ inr a) × (k a ≡ inr b)
>>=-inr (inl fatal) k b h = cc h
>>=-inr (inr a) k b h = (a, refl, h)

or_end-inr : {A : Type 0} (stage : Stage) (r : Result A) (a : A) → or_end stage r ≡ inr a → r ≡ ok a
or_end-inr stage (err e) a h = cc h
or_end-inr stage (ok x) a h = cc h

configured-inr : (o : Option Config) (cfg : Config) → configured o ≡ inr cfg → o ≡ some cfg
configured-inr none cfg h = cc h
configured-inr (some x) cfg h = cc h

result-ok : (o : Outcome) → result o ≡ ok tt → o ≡ none
result-ok none h = refl
result-ok (some e) h = cc h

module _ (S : Surroundings) where
  reached-ok :
      (opt redis : S.Options) (o : Outcome)
      → reached S opt o ≡ ok redis
      → (opt ≡ redis) × (o ≡ none)
  reached-ok opt redis none h = (cc h, refl)
  reached-ok opt redis (some e) h = cc h

  broker-ok :
      (url : String) (redis : S.Options)
      → new_redis_message_broker S url ≡ ok redis
      → (S.parse_url url ≡ ok redis) × (S.ping redis ≡ none)
  broker-ok url redis h = elim (Result-cases (S.parse_url url)) [
    | inr (e, failed) ↦
        let e' : new_redis_message_broker S url ≡ err e = rw failed refl in cc (e', h)
    | inl (opt, parsed) ↦
        let e' : new_redis_message_broker S url ≡ reached S opt (S.ping opt) = rw parsed refl in
        let (same, answers) = reached-ok opt redis (S.ping opt) (sym e' ∙ h) in
        (parsed ∙ ap ok same, ap S.ping (sym same) ∙ answers)
  ]

  start-IsStarted : (p : Process S) → IsStarted S p → start S ≡ inr p
  unfolding start
  start-IsStarted p h = rw h.logs (
      rw h.configured
        (rw h.connected (rw h.migrated (rw h.opened_log (rw h.parsed (rw h.answers refl))))))

  -- A start that succeeds has gone through every stage.
  start_stages : (p : Process S) → start S ≡ inr p → IsStarted S p
  unfolding start
  start_stages p h =
      let (_, made, h1) = >>=-inr (or_end logging (init S true)) _ p h in
      let (cfg, loaded, h2) = >>=-inr (configured (load S.env S.atoi S.parse_duration)) _ p h1 in
      let (opened, connected, h3) = >>=-inr (connect S cfg) _ p h2 in
      let (database, migrated, h4) = >>=-inr (migrate S opened) _ p h3 in
      let (wal, log, h5) =
        >>=-inr (or_end opening_log (new_wal S.on_mkdir S.on_open log_path S.disk)) _ p h4 in
      let (redis, cached, h6) =
        >>=-inr (or_end caching (new_redis_message_broker S cfg.redis_url)) _ p h5 in
      let same : record { cfg = cfg; database = database; wal = wal; redis = redis } ≡ p = cc h6 in
      let (parsed, answers) = broker-ok cfg.redis_url redis (or_end-inr caching _ redis cached) in
      subst (IsStarted S) same (record {
        logs = result-ok (S.build (zap_config true)) (or_end-inr logging _ _ made);
        configured = configured-inr _ cfg loaded;
        opened = opened;
        connected = or_end-inr connecting _ opened connected;
        migrated = or_end-inr migrating _ database migrated;
        opened_log = or_end-inr opening_log _ wal log;
        parsed = parsed;
        answers = answers;
      })

  start_iff : (p : Process S) → (start S ≡ inr p) ↔ IsStarted S p
  start_iff p = (start_stages p, start-IsStarted p)

  -- A start that reaches the services has gone through all its stages, with what each of them
  -- gave; and where an earlier process has left an undamaged log at the path, the log is open and
  -- holds its entries.
  pub start-Holds :
      (c : Codec WalEntry) (old : Wal) (entries : List WalEntry) (p : Process S)
      → Stores c old entries
      → old.file_path ≡ log_path
      → old.disk ≡ S.disk
      → start S ≡ inr p
      → IsStarted S p × Holds c p.wal entries
  start-Holds c old entries p stored path disk started =
      let stages = start_stages p started in
      let opening : new_wal S.on_mkdir S.on_open old.file_path old.disk ≡ ok p.wal =
        ap (λ q. new_wal S.on_mkdir S.on_open q old.disk) path
        ∙ ap (new_wal S.on_mkdir S.on_open log_path) disk
        ∙ stages.opened_log in
      (stages, new_wal-Holds c old p.wal entries S.on_mkdir S.on_open stored opening)

-- ===== src/Db/Session.antt =====
-- aae/db/session.py: the engine and the session factory of the process, made once, and the scope of
-- a transaction. What SQLAlchemy makes of a DSN, and its sessions, are parameters.
pub mod Memo
pub mod Scope
mod Tests
use self_spawn_agents.Prelude.{
  ℕ, Bool, true, false, Option, none, some, List, [], ◌∷◌, Text, Result, ok, err, Action, Exception,
  assertion_error,
}
use self_spawn_agents.Prelude.Decimal.{Money}
use self_spawn_agents.Config.{Settings, Environment, get_settings}

-- The keyword arguments of `create_engine`.
pub record EngineOptions : Type 0 where
  pub pool_size : Option ℕ
  pub pool_pre_ping : Bool
  pub future : Bool

abbrev pub pooled : EngineOptions
pooled = record { pool_size = some 10; pool_pre_ping = true; future = true }

abbrev pub unpooled : EngineOptions
unpooled = record { pool_size = none; pool_pre_ping = false; future = true }

module _ (Engine : Type 0) where
  pub record SessionMaker : Type 0 where
    pub bind : Engine
    pub autoflush : Bool
    pub expire_on_commit : Bool

  -- The globals `_settings`, `_engine` and `_Session`.
  pub record Globals : Type 0 where
    pub settings : Option Settings
    pub engine : Option Engine
    pub session : Option SessionMaker

module _ {Engine : Type 0} where
  abbrev pub sessionmaker : Engine → SessionMaker Engine
  sessionmaker e = record { bind = e; autoflush = false; expire_on_commit = false }

  abbrev pub with_engine : Engine → Globals Engine → Globals Engine
  with_engine e g = record g { engine = some e; session = some (sessionmaker e) }

  abbrev pub with_settings : Option Settings → Globals Engine → Globals Engine
  with_settings o g = record g { settings = o }

  -- The assignments after a call of `create_engine`.
  abbrev pub install : Result Engine → Action (Globals Engine) Engine
  install (err x) g = (err x, g)
  install (ok e) g = (ok e, with_engine e g)

  -- `assert _Session is not None`
  abbrev pub session_or : Option (SessionMaker Engine) → Result (SessionMaker Engine)
  session_or none = err assertion_error
  session_or (some sm) = ok sm

  abbrev pub after_engine :
      Result Engine × Globals Engine → Result (SessionMaker Engine) × Globals Engine
  after_engine (err x, g) = (err x, g)
  after_engine (ok e, g) = (session_or g.session, g)

  unfoldable pub reset_engine_for_tests :
      (Text → EngineOptions → Result Engine) → Text → Action (Globals Engine) Engine
  reset_engine_for_tests create_engine dsn g = install (create_engine dsn unpooled) g

  module _ (create_engine : Text → EngineOptions → Result Engine)
      (decimal : Text → Option Money) where
    abbrev pub connect : Result Settings → Action (Globals Engine) Engine
    connect (err x) g = (err x, g)
    connect (ok s) g = install (create_engine s.postgres_dsn pooled) g

    abbrev pub engine_or : Environment → Option Engine → Action (Globals Engine) Engine
    engine_or env (some e) g = (ok e, g)
    engine_or env none g =
        let (r, o) = get_settings decimal env g.settings in connect r (with_settings o g)

    unfoldable pub get_engine : Environment → Action (Globals Engine) Engine
    unfolding get_settings
    get_engine env g = engine_or env g.engine g

    unfoldable pub get_sessionmaker : Environment → Action (Globals Engine) (SessionMaker Engine)
    unfolding get_engine
    get_sessionmaker env g = after_engine (get_engine env g)

-- The methods of a session of SQLAlchemy that the scope calls, over the state of its connection.
pub record SessionMethods (C : Type 0) : Type 0 where
  pub commit : Action C (Unit {0})
  pub rollback : Action C (Unit {0})
  pub close : Action C (Unit {0})

module _ {C : Type 0} (session : SessionMethods C) where
  -- `except Exception: session.rollback(); raise`
  abbrev pub roll_back : {A : Type 0} → Exception → Action C A
  roll_back x c = let (r, c') = session.rollback c in (elim r [ ok _ ↦ err x | err y ↦ err y ], c')

  abbrev pub commit_after : {A : Type 0} → A → Result (Unit {0}) × C → Result A × C
  commit_after a (ok _, c) = (ok a, c)
  commit_after a (err x, c) = roll_back x c

  -- The `try` with its handler, from the end of the caller's block on.
  abbrev pub end_block : {A : Type 0} → Result A × C → Result A × C
  end_block (ok a, c) = commit_after a (session.commit c)
  end_block (err x, c) = roll_back x c

  -- `finally: session.close()`
  abbrev pub closing : {A : Type 0} → Result A × C → Result A × C
  closing (r, c) = let (q, c') = session.close c in (elim q [ ok _ ↦ r | err y ↦ err y ], c')

  -- `with session_scope() as session: body`, on the session that the factory made. A body that is
  -- interrupted from outside is left out.
  unfoldable pub session_scope : {A : Type 0} → Action C A → Action C A
  session_scope body c = closing (end_block (body c))

  -- `session.commit()` at the end of a block without a handler.
  abbrev pub commit_last : {A : Type 0} → A → Result (Unit {0}) × C → Result A × C
  commit_last a (ok _, c) = (ok a, c)
  commit_last a (err x, c) = (err x, c)

  abbrev pub end_plain : {A : Type 0} → Result A × C → Result A × C
  end_plain (ok a, c) = commit_last a (session.commit c)
  end_plain (err x, c) = (err x, c)

  -- `with sm() as session: body; session.commit()`, where leaving the block closes the session.
  unfoldable pub with_session : {A : Type 0} → Action C A → Action C A
  with_session body c = closing (end_plain (body c))

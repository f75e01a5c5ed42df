-- ===== src/Db/Session/Memo.antt =====
-- The globals of aae/db/session.py under any calls.
use self_spawn_agents.Prelude.{◌≡◌, refl, Option, none, some, List, [], ◌∷◌, Text, Result, ok, err}
use self_spawn_agents.Prelude.Decimal.{Money}
use self_spawn_agents.Config.{Settings, Environment, get_settings}
use self_spawn_agents.Db.Session.{
  EngineOptions, pooled, unpooled, connect, SessionMaker, Globals, sessionmaker, with_settings,
  install, engine_or, after_engine, get_engine, get_sessionmaker, reset_engine_for_tests,
}

-- A call, in the environment of its moment.
pub data Call : Type 0 where
  engine_call maker_call : Environment → Call
  reset_call : Text → Call

module _ {Engine : Type 0} where
  abbrev pub unset : Globals Engine
  unset = record { settings = none; engine = none; session = none }

  abbrev pub maker_of : Result Engine → Result (SessionMaker Engine)
  maker_of (ok e) = ok (sessionmaker e)
  maker_of (err x) = err x

  abbrev factory : Option Engine → Option (SessionMaker Engine)
  factory none = none
  factory (some e) = some (sessionmaker e)

  -- The factory is there with the engine, and is bound to it.
  record Linked (g : Globals Engine) : Type 0 where
    linked : g.session ≡ factory g.engine

  abbrev Remembers : Result Engine × Globals Engine → Type 0
  Remembers (ok e, g) = g.engine ≡ some e
  Remembers (err x, g) = Unit

  module _ (create_engine : Text → EngineOptions → Result Engine)
      (decimal : Text → Option Money) where
    abbrev pub call : Call → Globals Engine → Globals Engine
    call (engine_call env) g = (get_engine create_engine decimal env g).1
    call (maker_call env) g = (get_sessionmaker create_engine decimal env g).1
    call (reset_call dsn) g = (reset_engine_for_tests create_engine dsn g).1

    abbrev pub calls : List Call → Globals Engine → Globals Engine
    calls [] g = g
    calls (c ∷ cs) g = calls cs (call c g)

    install-Linked : (r : Result Engine) (g : Globals Engine) → Linked g → Linked (install r g).1
    install-Linked (ok e) g h = record { linked = refl }
    install-Linked (err x) g h = h

    connect-Linked :
        (r : Result Settings) (g : Globals Engine)
        → Linked g
        → Linked (connect create_engine decimal r g).1
    connect-Linked (err x) g h = h
    connect-Linked (ok s) g h = install-Linked (create_engine s.postgres_dsn pooled) g h

    engine_or-Linked :
        (env : Environment) (o : Option Engine) (g : Globals Engine)
        → Linked g
        → Linked (engine_or create_engine decimal env o g).1
    engine_or-Linked env (some e) g h = h
    engine_or-Linked env none g h =
        let q = get_settings decimal env g.settings in
        connect-Linked q.0 (with_settings q.1 g) (record { linked = h.linked })

    engine-Linked :
        (env : Environment) (g : Globals Engine)
        → Linked g
        → Linked (get_engine create_engine decimal env g).1
    unfolding get_engine
    engine-Linked env g h = engine_or-Linked env g.engine g h

    after_engine-kept : (q : Result Engine × Globals Engine) → (after_engine q).1 ≡ q.1
    after_engine-kept (ok e, g) = refl
    after_engine-kept (err x, g) = refl

    call-Linked : (c : Call) (g : Globals Engine) → Linked g → Linked (call c g)
    unfolding get_sessionmaker reset_engine_for_tests
    call-Linked (engine_call env) g h = engine-Linked env g h
    call-Linked (maker_call env) g h = rw after_engine-kept (engine-Linked env g h)
    call-Linked (reset_call dsn) g h = install-Linked (create_engine dsn unpooled) g h

    calls-Linked : (cs : List Call) (g : Globals Engine) → Linked g → Linked (calls cs g)
    calls-Linked [] g h = h
    calls-Linked (c ∷ cs) g h = calls-Linked cs (call c g) (call-Linked c g h)

    connect-Remembers :
        (r : Result Settings) (g : Globals Engine) → Remembers (connect create_engine decimal r g)
    connect-Remembers (err x) g = tt
    connect-Remembers (ok s) g = installed (create_engine s.postgres_dsn pooled)
      where
        installed : (r : Result Engine) → Remembers (install r g)
        installed (err x) = tt
        installed (ok e) = refl

    -- The engine that a call returns is the one that it leaves.
    engine_kept :
        (env : Environment) (g : Globals Engine) (o : Option Engine)
        → g.engine ≡ o
        → Remembers (engine_or create_engine decimal env o g)
    engine_kept env g none h =
        let q = get_settings decimal env g.settings in connect-Remembers q.0 (with_settings q.1 g)
    engine_kept env g (some e) h = h

    -- A later call in another environment gives the same engine.
    abbrev pub Stays : Environment → Result Engine × Globals Engine → Type 0
    Stays later (ok e, g) = get_engine create_engine decimal later g ≡ (ok e, g)
    Stays later (err x, g) = Unit

    stays : (later : Environment) (q : Result Engine × Globals Engine) → Remembers q → Stays later q
    unfolding get_engine
    stays later (err x, g) r = tt
    stays later (ok e, g) r = rw r refl

    made :
        (q : Result Engine × Globals Engine)
        → Linked q.1
        → Remembers q
        → after_engine q ≡ (maker_of q.0, q.1)
    made (err x, g) h r = refl
    made (ok e, g) h r = rw (h.linked, r) refl

    -- After any calls of get_engine, get_sessionmaker and reset_engine_for_tests in any
    -- environments: get_sessionmaker returns the factory of the very engine that get_engine
    -- returns, or raises what get_engine raises, so its assertion holds; and a later get_engine in
    -- any other environment gives the same engine.
    pub get_sessionmaker_bound :
        (cs : List Call) (env later : Environment)
        → let g = calls cs unset in
          let q = get_engine create_engine decimal env g in
          (get_sessionmaker create_engine decimal env g ≡ (maker_of q.0, q.1)) × Stays later q
    unfolding get_sessionmaker get_engine
    get_sessionmaker_bound cs env later =
        let g = calls cs unset in
        let kept = engine_kept env g g.engine refl in
        (
          made _ (engine-Linked env g (calls-Linked cs unset (record { linked = refl }))) kept,
          stays later _ kept,
        )

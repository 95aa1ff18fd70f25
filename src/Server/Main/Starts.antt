-- ===== src/Server/Main/Starts.antt =====
-- What the program does with its command line, up to the loop of the endpoint.
use slitherss.Prelude.{ℕ, ◌≡◌, refl, ap, ◌⊎◌, inl, inr, true, List, [], if_cases}
use slitherss.Float.{Float}
use slitherss.Game.Random.{Random}
use slitherss.Server.Config.{
  IncomingConfig, new_config, Parsed, parsed, failed, ProgramOptions, Launch, start, exit, throws,
  parse_command_line,
}
use slitherss.Server.Config.Written.{
  IsDocumented, IsComplete, IsRefused, Passes, parsed_as, parse_command_line-Passes,
  parse_command_line_none,
}
use slitherss.Server.Game.{Clock, Server}
use slitherss.Server.Game.Handlers.{run}
use slitherss.Server.Game.Linked.Served.{IsNew, Serves, started}
use slitherss.Server.Main.{
  Endpoint, Ending, code, terminated, divides_by_zero, catch_websocketpp, run_server, launch, main,
}

module _ {F : Type 0} ⦃float : Float F⦄ {G : Type 0} ⦃clock : Clock G⦄ ⦃random : Random G⦄
    (endpoint : Endpoint F G) where
  -- The loop runs from the server that Run makes by this configuration, which serves, and its end is
  -- that of the process.
  pub record Loops (srv : Server F G) (config : IncomingConfig) (ended : Ending × Server F G)
      : Type 0 where
    pub outside : G
    pub begun : Server F G
    pub made : begun ≡ run config.world config.debug (record srv { outside = outside })
    pub serves : Serves begun
    pub ended_by : ended ≡ (catch_websocketpp (endpoint.run begun).0, (endpoint.run begun).1)

  outside-IsNew : (srv : Server F G) (g : G) → IsNew srv → IsNew (record srv { outside = g })
  outside-IsNew srv g n = record {
    snakes = n.snakes;
    changes = n.changes;
    dead = n.dead;
    last_snake_id = n.last_snake_id;
    sessions = n.sessions;
    connections = n.connections;
    is_lost = n.is_lost;
  }

  -- listen or start_accept throws, or the length of a bot is drawn below 0.
  abbrev pub IsBroken : IncomingConfig → Server F G → Type 0
  IsBroken config srv =
      let heard = endpoint.listen config.port srv.outside in
      (heard.0 ≡ true)
      ⊎ ((endpoint.start_accept heard.1).0 ≡ true)
      ⊎ (divides_by_zero config ≡ true)

  -- The configuration that the parser made is complete; Run fails with it, or the loop runs.
  pub record Runs (srv : Server F G) (r : Parsed) (ended : Ending × Server F G) : Type 0 where
    pub config : IncomingConfig
    pub read : r ≡ parsed config
    pub complete : IsComplete config
    pub outcome : (IsBroken config srv × (ended.0 ≡ terminated)) ⊎ Loops srv config ended

  -- What main does, against what comes of the parser
  abbrev pub Starts : Server F G → Parsed → Ending × Server F G → Type 0
  Starts srv r ended =
      ((c : IncomingConfig) × (r ≡ failed c) × (ended ≡ (terminated, srv)))
      ⊎ (IsRefused r × (ended ≡ (code 1, srv)))
      ⊎ Runs srv r ended

  run_server-Starts :
      (config : IncomingConfig) (srv : Server F G)
      → IsComplete config
      → IsNew srv
      → (IsBroken config srv × ((run_server endpoint config srv).0 ≡ terminated))
        ⊎ Loops srv config (run_server endpoint config srv)
  unfolding run_server
  run_server-Starts config srv v n =
      let heard = endpoint.listen config.port srv.outside in
      let accepting = endpoint.start_accept heard.1 in
      let ready : Server F G = record srv { outside = accepting.1 } in
      let P = λ (ended : Ending × Server F G).
        (IsBroken config srv × (ended.0 ≡ terminated)) ⊎ Loops srv config ended in
      if_cases P heard.0 (λ throws_first. inl (inl throws_first, refl))
        (λ _.
          if_cases P accepting.0 (λ throws_next. inl (inr (inl throws_next), refl))
            (λ _.
              if_cases P (divides_by_zero config) (λ by_zero. inl (inr (inr by_zero), refl))
                (λ _. inr (record {
                  outside = accepting.1;
                  begun = run config.world config.debug ready;
                  made = refl;
                  serves =
                      started config.world config.debug ready (outside-IsNew srv accepting.1 n)
                        v.words.1;
                  ended_by = refl;
                }))))

  launch-Starts :
      (r : Parsed) (begun : Launch) (srv : Server F G)
      → Passes r begun
      → IsNew srv
      → Starts srv r (launch endpoint begun srv)
  unfolding launch
  launch-Starts r (start config) srv (read, complete) n = inr (
      inr (record {
        config = config;
        read = read;
        complete = complete;
        outcome = run_server-Starts config srv complete n;
      }))
  launch-Starts r (exit n) srv (refused, one) new = inr (inl (refused, ap (λ k. (code k, srv)) one))
  launch-Starts r throws srv (c, e) n = inl (c, e, refl)

  -- If the parser does what is documented of it, then for every command line, and a server that was
  -- just made: main ends by an exception, with the server as it was, if the parser fails otherwise
  -- than by unknown_option; ends with code 1, with the server as it was, only if the parser threw
  -- unknown_option, help was asked for, or under TLS the name of the certificate or of the key is
  -- empty; or it calls Run with the configuration that the parser made, in which the numbers fit 16
  -- bits, help was not asked for, and under TLS neither name is empty. Run ends the process only if
  -- listen or start_accept throws, or if there are bots to be made and the average length is 0;
  -- otherwise the endpoint's loop runs from a server that serves, made by Run with this configuration,
  -- and the process ends as the handler of Run makes of the loop's end.
  pub main-Starts :
      (options : ProgramOptions) (argv : List (List ℕ)) (srv : Server F G)
      → IsDocumented options
      → IsNew srv
      → Starts srv (parsed_as options argv) (main endpoint options argv srv)
  unfolding main
  main-Starts options argv srv d n =
      launch-Starts (parsed_as options argv) (parse_command_line options argv) srv
        (parse_command_line-Passes options argv d) n

  -- With no arguments main runs the server with the initial values of the configuration.
  pub main_none :
      (options : ProgramOptions) (srv : Server F G)
      → IsDocumented options
      → main endpoint options [] srv ≡ run_server endpoint new_config srv
  unfolding main launch
  main_none options srv d = rw (parse_command_line_none options d) refl

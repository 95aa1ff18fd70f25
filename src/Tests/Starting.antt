-- ===== src/Tests/Starting.antt =====
-- The theorem on main, for a parser that knows no arguments and an endpoint whose loop stops after one
-- timer.
use slitherss.Prelude.{ℕ, ◌+◌, ℤ, refl, false, List, [], ◌∷◌, foldl}
use slitherss.Float.{whole_float}
use slitherss.Server.Config.{
  IncomingConfig, Semantic, bool_switch, word, text, OptionSpec, Parsed, parsed, unknown,
  ProgramOptions,
}
use slitherss.Server.Config.Written.{Keeps, AllKeep, Holds, set_default, IsDocumented, parsed_as}
use slitherss.Server.Game.Handlers.{on_timer}
use slitherss.Server.Main.{stopped, Endpoint, main}
use slitherss.Server.Main.Starts.{Starts, main-Starts}
use slitherss.Tests.Play.{counter}
use slitherss.Tests.Serving.{stop_watch, made, made-IsNew}

abbrev parse_none : List OptionSpec → List (List ℕ) → IncomingConfig → Parsed
parse_none os [] c = parsed (foldl set_default c os)
parse_none os (_ ∷ _) c = unknown c

set_default-keep :
    (P : IncomingConfig → Type 0) (m : Semantic) (c : IncomingConfig)
    → Keeps P m
    → P c
    → P (elim m [ bool_switch f ↦ f false c | word d f ↦ f d c | text f ↦ c ])
set_default-keep P (bool_switch f) c k v = k false c v
set_default-keep P (word d f) c (fits, k) v = k d c fits v
set_default-keep P (text f) c k v = v

set_defaults-keep :
    (P : IncomingConfig → Type 0) (os : List OptionSpec) (c : IncomingConfig)
    → AllKeep P os
    → P c
    → P (foldl set_default c os)
set_defaults-keep P [] c keep v = v
set_defaults-keep P (o ∷ os) c (k, keep) v =
    set_defaults-keep P os (set_default c o) keep (set_default-keep P o.semantic c k v)

parse_none-Holds :
    (P : IncomingConfig → Type 0) (os : List OptionSpec) (argv : List (List ℕ)) (c : IncomingConfig)
    → AllKeep P os
    → P c
    → Holds P (parse_none os argv c)
parse_none-Holds P os [] c keep v = set_defaults-keep P os c keep v
parse_none-Holds P os (_ ∷ _) c keep v = v

abbrev options : ProgramOptions
options = record { parse = parse_none }

options-IsDocumented : IsDocumented options
options-IsDocumented = record { writes = parse_none-Holds; defaults = λ os c. refl }

abbrev endpoint : Endpoint ℤ ℕ
endpoint = record {
  listen = λ port n. (false, n + 1);
  start_accept = λ n. (false, n + 1);
  run = λ srv. (stopped, on_timer false srv);
}

main_example : Starts endpoint made (parsed_as options []) (main endpoint options [] made)
main_example = main-Starts endpoint options [] made options-IsDocumented made-IsNew

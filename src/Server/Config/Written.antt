-- ===== src/Server/Config/Written.antt =====
-- What boost::program_options documents of the options, and what the program relies on.
use slitherss.Prelude.{
  ℕ, ◌^◌, ◌<◌, ◌≡◌, refl, ◌⊎◌, inl, inr, Bool, true, false, List, [], ◌∷◌, ◌++◌, foldl, if_cases,
  ◌&&◌, ◌||◌, arith,
}
use slitherss.Server.Config.{
  IncomingConfig, new_config, Semantic, bool_switch, word, text, OptionSpec, Parsed, parsed,
  unknown, failed, ProgramOptions, generic, conf, Launch, start, exit, throws, is_empty,
  check_config, finish_parsing, parse_command_line,
}

-- A property of the configuration that an option keeps, with any value of its type, for an option
-- whose default is of that type
abbrev pub Keeps : (IncomingConfig → Type 0) → Semantic → Type 0
Keeps P (bool_switch f) = (b : Bool) (c : IncomingConfig) → P c → P (f b c)
Keeps P (word d f) = (d < 2 ^ 16) × ((n : ℕ) (c : IncomingConfig) → n < 2 ^ 16 → P c → P (f n c))
Keeps P (text f) = (t : List ℕ) (c : IncomingConfig) → P c → P (f t c)

abbrev pub AllKeep : (IncomingConfig → Type 0) → List OptionSpec → Type 0
AllKeep P [] = Unit {0}
AllKeep P (o ∷ os) = Keeps P o.semantic × AllKeep P os

abbrev pub Holds : (IncomingConfig → Type 0) → Parsed → Type 0
Holds P (parsed c) = P c
Holds P (unknown c) = P c
Holds P (failed c) = P c

-- The value that an option has when it is not given: a switch is off, a number has its default, and
-- a text is not written.
abbrev pub set_default : IncomingConfig → OptionSpec → IncomingConfig
set_default c o = elim o.semantic [ bool_switch f ↦ f false c | word d f ↦ f d c | text f ↦ c ]

-- The configuration is written only through the options, with values of their types; and what is not
-- given has its default.
pub record IsDocumented (po : ProgramOptions) : Type 1 where
  pub writes :
      (P : IncomingConfig → Type 0) (os : List OptionSpec) (argv : List (List ℕ))
      (c : IncomingConfig)
      → AllKeep P os
      → P c
      → Holds P (po.parse os argv c)
  pub defaults :
      (os : List OptionSpec) (c : IncomingConfig)
      → po.parse os [] c ≡ parsed (foldl set_default c os)

-- The numbers fit 16 bits.
abbrev pub IsWords : IncomingConfig → Type 0
IsWords c =
    (c.port < 2 ^ 16)
    × (c.world.bots < 2 ^ 16)
    × (c.world.snake_average_length < 2 ^ 16)
    × (c.world.snake_min_length < 2 ^ 16)

-- A configuration that ParseCommandLine lets pass
pub record IsComplete (c : IncomingConfig) : Type 0 where
  pub words : IsWords c
  pub no_help : c.help ≡ false
  pub cert : c.use_tls ≡ true → is_empty c.tls_cert_file ≡ false
  pub key : c.use_tls ≡ true → is_empty c.tls_key_file ≡ false

options-AllKeep : AllKeep IsWords (generic new_config ++ conf new_config)
unfolding generic conf
options-AllKeep =
    let flag = λ (b : Bool) (c : IncomingConfig) (v : IsWords c). v in
    let name = λ (t : List ℕ) (c : IncomingConfig) (v : IsWords c). v in
    (
      flag,
      (
        flag,
        (
          flag,
          (
            (omega arith, port),
            (
              flag,
              (
                flag,
                (
                  name,
                  (
                    name,
                    ((omega arith, bots), ((omega arith, average), ((omega arith, minimum), tt))),
                  ),
                ),
              ),
            ),
          ),
        ),
      ),
    )
  where
    port : (n : ℕ) (c : IncomingConfig) → n < 2 ^ 16 → IsWords c → IsWords (record c { port = n })
    port n c h v = (h, v.1, v.2, v.3)

    bots :
        (n : ℕ) (c : IncomingConfig)
        → n < 2 ^ 16
        → IsWords c
        → IsWords (record c { world = record c.world { bots = n } })
    bots n c h v = (v.0, h, v.2, v.3)

    average :
        (n : ℕ) (c : IncomingConfig)
        → n < 2 ^ 16
        → IsWords c
        → IsWords (record c { world = record c.world { snake_average_length = n } })
    average n c h v = (v.0, v.1, h, v.3)

    minimum :
        (n : ℕ) (c : IncomingConfig)
        → n < 2 ^ 16
        → IsWords c
        → IsWords (record c { world = record c.world { snake_min_length = n } })
    minimum n c h v = (v.0, v.1, v.2, h)

-- Help was asked for, the parser threw unknown_option, or a file is missing under TLS.
abbrev pub IsRefused : Parsed → Type 0
IsRefused (parsed c) =
    (c.help ≡ true)
    ⊎ ((c.use_tls ≡ true) × ((is_empty c.tls_cert_file || is_empty c.tls_key_file) ≡ true))
IsRefused (unknown c) = Unit {0}
IsRefused (failed c) = ⊥

-- What the program does, against what comes of the parser: it goes on with the configuration that was
-- parsed, which is complete, ends with code 1, or throws.
abbrev pub Passes : Parsed → Launch → Type 0
Passes r (start c) = (r ≡ parsed c) × IsComplete c
Passes r (exit code) = IsRefused r × (code ≡ 1)
Passes r throws = (c : IncomingConfig) × (r ≡ failed c)

check_config-Passes : (c : IncomingConfig) → IsWords c → Passes (parsed c) (check_config c)
unfolding check_config
check_config-Passes c v =
    let no_file = is_empty c.tls_cert_file || is_empty c.tls_key_file in
    if_cases (Passes (parsed c)) c.help (λ help. (inl help, refl))
      (λ no_help.
        if_cases (Passes (parsed c)) (c.use_tls && no_file)
          (λ both. (inr (ground (arith, both), ground (arith, both)), refl))
          (λ complete. (
            refl,
            record {
              words = v;
              no_help = no_help;
              cert = λ tls. ground (arith, tls, complete);
              key = λ tls. ground (arith, tls, complete);
            },
          )))

finish_parsing-Passes : (r : Parsed) → Holds IsWords r → Passes r (finish_parsing r)
unfolding finish_parsing check_config
finish_parsing-Passes (parsed c) v = check_config-Passes c v
finish_parsing-Passes (unknown c) v = (tt, refl)
finish_parsing-Passes (failed c) v = (c, refl)

-- What the parser makes of a command line
abbrev pub parsed_as : ProgramOptions → List (List ℕ) → Parsed
parsed_as po argv = po.parse (generic new_config ++ conf new_config) argv new_config

pub parse_command_line-Passes :
    (po : ProgramOptions) (argv : List (List ℕ))
    → IsDocumented po
    → Passes (parsed_as po argv) (parse_command_line po argv)
unfolding parse_command_line
parse_command_line-Passes po argv d =
    let os = generic new_config ++ conf new_config in
    finish_parsing-Passes (parsed_as po argv) (
      d.writes IsWords os argv new_config options-AllKeep
        (omega arith, omega arith, omega arith, omega arith))

-- With no arguments the program goes on with the initial values.
pub parse_command_line_none :
    (po : ProgramOptions) → IsDocumented po → parse_command_line po [] ≡ start new_config
unfolding parse_command_line
parse_command_line_none po d =
    rw (parse_command_line, d.defaults (generic new_config ++ conf new_config) new_config) refl

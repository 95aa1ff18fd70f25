-- ===== src/Server/Config.antt =====
-- src/server/config.h and config.cc: the options of the command line and ParseCommandLine.
-- boost::program_options is a parameter: it is given the options, each with the place that it is bound
-- to, and the configuration, which it may write there. The texts of the options are left out.
pub mod Written
use Prim.Native.String.{String}
use slitherss.Prelude.{
  ℕ, ◌^◌, ◌<◌, ◌≡◌, Bool, true, false, ◌&&◌, ◌||◌, List, [], ◌∷◌, ◌++◌, Option, none, some, foldl,
  if◌then◌else◌,
}
use slitherss.Game.Config.{WorldConfig}

-- Texts are lists of bytes.
pub record IncomingConfig : Type 0 where
  pub port : ℕ
  pub help : Bool
  pub version : Bool
  pub verbose : Bool
  pub debug : Bool
  pub use_tls : Bool
  pub tls_cert_file : List ℕ
  pub tls_key_file : List ℕ
  pub world : WorldConfig

-- The initial values of the fields
abbrev pub new_config : IncomingConfig
new_config = record {
  port = 8080;
  help = false;
  version = false;
  verbose = false;
  debug = false;
  use_tls = false;
  tls_cert_file = [];
  tls_key_file = [];
  world = record { bots = 0; snake_average_length = 2; snake_min_length = 2 };
}

-- `po::bool_switch(&x)`, `po::value<uint16_t>(&x)->default_value(d)` and `po::value<std::string>(&x)`,
-- with the assignment to x
pub data Semantic : Type 0 where
  bool_switch : (Bool → IncomingConfig → IncomingConfig) → Semantic
  word : ℕ → (ℕ → IncomingConfig → IncomingConfig) → Semantic
  text : (List ℕ → IncomingConfig → IncomingConfig) → Semantic

-- "help,h": the name, and the letter if there is one
pub record OptionSpec : Type 0 where
  pub name : String
  pub letter : Option ℕ
  pub semantic : Semantic

-- What store and notify come to: all is parsed, an unknown_option is thrown, or something else. The
-- configuration is as they left it.
pub data Parsed : Type 0 where
  parsed : IncomingConfig → Parsed
  unknown : IncomingConfig → Parsed
  failed : IncomingConfig → Parsed

pub record ProgramOptions : Type 0 where
  pub parse : List OptionSpec → List (List ℕ) → IncomingConfig → Parsed

-- `generic`
unfoldable pub generic : IncomingConfig → List OptionSpec
generic c =
    record {
      name = "help";
      letter = some b'h';
      semantic = bool_switch (λ b x. record x { help = b });
    }
    ∷ record {
      name = "verbose";
      letter = some b'v';
      semantic = bool_switch (λ b x. record x { verbose = b });
    }
    ∷ record {
      name = "version";
      letter = none;
      semantic = bool_switch (λ b x. record x { version = b });
    }
    ∷ record {
      name = "port";
      letter = some b'p';
      semantic = word c.port (λ n x. record x { port = n });
    }
    ∷ record {
      name = "debug";
      letter = some b'd';
      semantic = bool_switch (λ b x. record x { debug = b });
    }
    ∷ record {
      name = "tls";
      letter = none;
      semantic = bool_switch (λ b x. record x { use_tls = b });
    }
    ∷ record {
      name = "cert";
      letter = none;
      semantic = text (λ t x. record x { tls_cert_file = t });
    }
    ∷ record { name = "key"; letter = none; semantic = text (λ t x. record x { tls_key_file = t }) }
    ∷ []

-- `conf`
unfoldable pub conf : IncomingConfig → List OptionSpec
conf c =
    record {
      name = "bots";
      letter = some b'b';
      semantic = word c.world.bots (λ n x. record x { world = record x.world { bots = n } });
    }
    ∷ record {
      name = "avg_len";
      letter = none;
      semantic =
          word c.world.snake_average_length
            (λ n x. record x { world = record x.world { snake_average_length = n } });
    }
    ∷ record {
      name = "min_len";
      letter = none;
      semantic =
          word c.world.snake_min_length
            (λ n x. record x { world = record x.world { snake_min_length = n } });
    }
    ∷ []

-- What the process does with the command line: it goes on, calls exit, or an exception ends it.
pub data Launch : Type 0 where
  start : IncomingConfig → Launch
  exit : ℕ → Launch
  throws : Launch

abbrev pub is_empty : List ℕ → Bool
is_empty [] = true
is_empty (_ ∷ _) = false

-- The checks after the parser
unfoldable pub check_config : IncomingConfig → Launch
check_config c =
    if c.help
    then exit 1
    else if c.use_tls && (is_empty c.tls_cert_file || is_empty c.tls_key_file)
    then exit 1
    else start c

-- The handler of unknown_option, which sets the flag `help`, and the checks
unfoldable pub finish_parsing : Parsed → Launch
unfolding check_config
finish_parsing (parsed c) = check_config c
finish_parsing (unknown c) = check_config (record c { help = true })
finish_parsing (failed c) = throws

-- ParseCommandLine
unfoldable pub parse_command_line : ProgramOptions → List (List ℕ) → Launch
unfolding generic conf finish_parsing
parse_command_line po argv =
    finish_parsing (po.parse (generic new_config ++ conf new_config) argv new_config)

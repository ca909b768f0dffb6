-- ===== src/Sender/Options.antt =====
-- clients/tcp_order_sender.cpp: the options of the client. `std::atoi` is a parameter.
use hft_orderbook_benchmark.Common.{
  ℕ, ◌-◌, ◌%◌, ◌^◌, Bool, true, false, not, ◌||◌, List, [], ◌∷◌, Option, none, some, if◌then◌else◌,
  ltb,
}
use hft_orderbook_benchmark.Fix.Text.{Bytes, same}
use hft_orderbook_benchmark.Sender.{ℤ, pos, negsuc}

pub record Options : Type 0 where
  pub server_port : ℤ
  pub server_host : Bytes
  pub order_count : ℤ
  pub min_price : ℤ
  pub max_price : ℤ
  pub tick_size : ℤ
  pub min_qty : ℤ
  pub max_qty : ℤ
  pub seed : ℕ

-- "127.0.0.1".
abbrev local_host : Bytes
local_host = b'1' ∷ b'2' ∷ b'7' ∷ b'.' ∷ b'0' ∷ b'.' ∷ b'0' ∷ b'.' ∷ b'1' ∷ []

-- "Default configuration".
unfoldable pub defaults : Options
defaults = record {
  server_port = pos 12345;
  server_host = local_host;
  order_count = pos 1000000;
  min_price = pos 90;
  max_price = pos 110;
  tick_size = pos 1;
  min_qty = pos 1;
  max_qty = pos 100;
  seed = 42;
}

-- An `int` in a `uint32_t`.
abbrev pub to_u32 : ℤ → ℕ
to_u32 (pos n) = n % 2 ^ 32
to_u32 (negsuc n) = 2 ^ 32 - 1 - n % 2 ^ 32

abbrev pub flag_count : Bytes
flag_count = b'-' ∷ b'-' ∷ b'c' ∷ b'o' ∷ b'u' ∷ b'n' ∷ b't' ∷ []

abbrev pub flag_host : Bytes
flag_host = b'-' ∷ b'-' ∷ b'h' ∷ b'o' ∷ b's' ∷ b't' ∷ []

abbrev pub flag_port : Bytes
flag_port = b'-' ∷ b'-' ∷ b'p' ∷ b'o' ∷ b'r' ∷ b't' ∷ []

abbrev pub flag_min_price : Bytes
flag_min_price = b'-' ∷ b'-' ∷ b'm' ∷ b'i' ∷ b'n' ∷ b'-' ∷ b'p' ∷ b'r' ∷ b'i' ∷ b'c' ∷ b'e' ∷ []

abbrev pub flag_max_price : Bytes
flag_max_price = b'-' ∷ b'-' ∷ b'm' ∷ b'a' ∷ b'x' ∷ b'-' ∷ b'p' ∷ b'r' ∷ b'i' ∷ b'c' ∷ b'e' ∷ []

abbrev pub flag_tick : Bytes
flag_tick = b'-' ∷ b'-' ∷ b't' ∷ b'i' ∷ b'c' ∷ b'k' ∷ []

abbrev pub flag_min_qty : Bytes
flag_min_qty = b'-' ∷ b'-' ∷ b'm' ∷ b'i' ∷ b'n' ∷ b'-' ∷ b'q' ∷ b't' ∷ b'y' ∷ []

abbrev pub flag_max_qty : Bytes
flag_max_qty = b'-' ∷ b'-' ∷ b'm' ∷ b'a' ∷ b'x' ∷ b'-' ∷ b'q' ∷ b't' ∷ b'y' ∷ []

abbrev pub flag_seed : Bytes
flag_seed = b'-' ∷ b'-' ∷ b's' ∷ b'e' ∷ b'e' ∷ b'd' ∷ []

abbrev pub flag_help : Bytes
flag_help = b'-' ∷ b'-' ∷ b'h' ∷ b'e' ∷ b'l' ∷ b'p' ∷ []

abbrev pub flag_h : Bytes
flag_h = b'-' ∷ b'h' ∷ []

-- An integer is below another.
abbrev pub int_lt : ℤ → ℤ → Bool
int_lt (pos a) (pos b) = ltb a b
int_lt (pos a) (negsuc b) = false
int_lt (negsuc a) (pos b) = true
int_lt (negsuc a) (negsuc b) = ltb b a

-- The outcome of the loop over the arguments: the options, the text of `--help`, or an unknown argument.
pub data Arguments : Type 0 where
  parsed : Options → Arguments
  usage : Arguments
  unknown : Bytes → Arguments

-- `main` goes on with the options, or returns 0 or 1.
pub data Configured : Type 0 where
  ready : Options → Configured
  returns : ℕ → Configured

-- An argument that is no option with a value.
unfoldable pub other_argument : Bytes → Arguments
unfolding same
other_argument arg = if same arg flag_help || same arg flag_h then usage else unknown arg

-- "Validate configuration". A range that is no multiple of the tick is only warned of.
unfoldable pub validate : Options → Configured
validate o =
    if not (int_lt o.min_price o.max_price)
    then returns 1
    else if not (int_lt (pos 0) o.tick_size)
    then returns 1
    else ready o

abbrev pub configured : Arguments → Configured
configured (parsed o) = validate o
configured usage = returns 0
configured (unknown arg) = returns 1

module _ (atoi : Bytes → ℤ) where
  -- An option with its value; `none` when there is no such option.
  unfoldable pub set_option : Bytes → Bytes → Options → Option Options
  unfolding same
  set_option arg value o =
      if same arg flag_count
      then some (record o { order_count = atoi value })
      else if same arg flag_host
      then some (record o { server_host = value })
      else if same arg flag_port
      then some (record o { server_port = atoi value })
      else if same arg flag_min_price
      then some (record o { min_price = atoi value })
      else if same arg flag_max_price
      then some (record o { max_price = atoi value })
      else if same arg flag_tick
      then some (record o { tick_size = atoi value })
      else if same arg flag_min_qty
      then some (record o { min_qty = atoi value })
      else if same arg flag_max_qty
      then some (record o { max_qty = atoi value })
      else if same arg flag_seed
      then some (record o { seed = to_u32 (atoi value) })
      else none

  -- `for (int i = 1; i < argc; i++)`, on the arguments behind the program's name.
  unfoldable pub parse_arguments : List Bytes → Options → Arguments
  unfolding set_option other_argument
  parse_arguments [] o = parsed o
  parse_arguments (arg ∷ []) o = other_argument arg
  parse_arguments (arg ∷ value ∷ rest) o = elim (set_option arg value o) [
    | none ↦ other_argument arg
    | some o' ↦ parse_arguments rest o'
  ]

  unfoldable pub configure : List Bytes → Configured
  unfolding parse_arguments validate defaults
  configure args = configured (parse_arguments args defaults)

-- ===== src/Server/Args.antt =====
-- crates/server/src/bin/zoocooker-server.rs: the command line, and what `main` starts for it. The
-- parser of socket addresses and the files are parameters.
pub mod Accepted
pub mod Tests
use zoocooker.Base.{
  ℕ, ◌+◌, ◌-◌, ◌*◌, ◌^◌, Bool, true, false, Text, Option, none, some, List, [], ◌∷◌, ◌++◌, ltb, leb,
  ◌==◌, ◌&&◌, ◌||◌, not, nat_eq, text_eq, codes, if◌then◌else◌,
}
use zoocooker.Base.Exec.{Result, ok, err, panic}
use zoocooker.Protocol.Types.{Bytes, ZkResult}
use zoocooker.Storage.Store.{TreeStore}
use zoocooker.Storage.Persistence.{PersistenceError, Codec}
use zoocooker.Consensus.Persistent.{PersistentNode}
use zoocooker.Server.Session.{Instant}
use zoocooker.Server.Metrics.{ServerConfig}
use zoocooker.Server.Service.{Service}
use zoocooker.Server.Endpoint.{is_some}
use zoocooker.Server.Start.{single_node_with_config, persistent_service}

-- the digits that the standard library's `u64::from_str` reads, after those that make `total`
unfoldable pub parse_digits : ℕ → ℕ → Text → Result Text ℕ
parse_digits limit total [] = ok total
parse_digits limit total (c ∷ cs) =
    let next = total * 10 + (c - 48) in
    let rest = parse_digits limit next cs in
    if not_digit c
    then err (codes "invalid digit found in string")
    else if ltb next limit
    then rest
    else err (codes "number too large to fit in target type")
  where
    not_digit : ℕ → Bool
    not_digit c = ltb c 48 || ltb 57 c

-- `str::parse` for an unsigned integer below `limit`: a sign may stand in front of the digits
unfoldable pub parse_unsigned : ℕ → Text → Result Text ℕ
unfolding parse_digits
parse_unsigned limit [] = err (codes "cannot parse integer from empty string")
parse_unsigned limit (c ∷ []) =
    if c == 43 then err (codes "invalid digit found in string") else parse_digits limit 0 (c ∷ [])
parse_unsigned limit (c ∷ d ∷ cs) =
    if c == 43 then parse_digits limit 0 (d ∷ cs) else parse_digits limit 0 (c ∷ d ∷ cs)

pub record Args (Addr : Type 0) : Type 0 where
  pub addr : Addr
  pub wal_path : Option Text
  pub snapshot_path : Option Text
  pub session_ttl_ms : ℕ
  pub watch_channel_capacity : ℕ
  pub max_watches : ℕ

pub data Flag : Type 0 where
  addr_flag wal_flag snapshot_flag ttl_flag capacity_flag max_flag : Flag

abbrev pub flag_name : Flag → Text
flag_name addr_flag = codes "--addr"
flag_name wal_flag = codes "--wal"
flag_name snapshot_flag = codes "--snapshot"
flag_name ttl_flag = codes "--session-ttl-ms"
flag_name capacity_flag = codes "--watch-channel-capacity"
flag_name max_flag = codes "--max-watches"

-- the arms of the `match` that take a value
unfoldable pub flag_of : Text → Option Flag
flag_of arg =
    if arg == codes "--addr"
    then some addr_flag
    else if arg == codes "--wal"
    then some wal_flag
    else if arg == codes "--snapshot"
    then some snapshot_flag
    else if arg == codes "--session-ttl-ms"
    then some ttl_flag
    else if arg == codes "--watch-channel-capacity"
    then some capacity_flag
    else if arg == codes "--max-watches"
    then some max_flag
    else none

abbrev lines : List Text → Text
lines [] = []
lines (line ∷ []) = line
lines (line ∷ next ∷ rest) = line ++ 10 ∷ lines (next ∷ rest)

abbrev pub usage : Text
usage = lines (
    codes "Usage: zoocooker-server [options]"
    ∷ codes ""
    ∷ codes "Options:"
    ∷ codes "  --addr <ip:port>                 listen address (default 127.0.0.1:50051)"
    ∷ codes "  --wal <path>                     enable persistent mode with WAL"
    ∷ codes "  --snapshot <path>                restore/save snapshot path; requires --wal"
    ∷ codes "  --session-ttl-ms <ms>            session TTL (default 10000)"
    ∷ codes "  --watch-channel-capacity <n>     per-watch stream channel capacity (default 32)"
    ∷ codes "  --max-watches <n>                max active watches (default 10000)"
    ∷ [])

-- the other two arms
unfoldable pub no_flag : Text → Text
no_flag arg =
    if arg == codes "--help" || arg == codes "-h"
    then usage
    else codes "unknown argument: " ++ arg ++ 10 ∷ 10 ∷ usage

-- `.map_err(|err| format!("{prefix}{err}"))`
abbrev pub prefixed : {A : Type 0} → Text → Result Text A → Result Text A
prefixed prefix (ok a) = ok a
prefixed prefix (err e) = err (prefix ++ e)
prefixed prefix panic = panic

abbrev pub and_then : {A B : Type 0} → Result Text A → (A → Result Text B) → Result Text B
and_then (ok a) f = f a
and_then (err e) f = err e
and_then panic f = panic

-- the bound of `u64`, and of `usize` on a machine of 64 bits
abbrev pub limit : ℕ
limit = 2 ^ 64

-- the checks after the loop
unfoldable pub check_args : {Addr : Type 0} → Args Addr → Result Text (Args Addr)
check_args p =
    if is_some p.snapshot_path && not (is_some p.wal_path)
    then err (codes "--snapshot requires --wal")
    else if p.session_ttl_ms == 0
    then err (codes "--session-ttl-ms must be greater than 0")
    else if p.watch_channel_capacity == 0
    then err (codes "--watch-channel-capacity must be greater than 0")
    else ok p

module _ {Addr : Type 0} (parse_addr : Text → Result Text Addr) where
  -- what an arm does with its value
  unfoldable pub set_flag : Flag → Text → Args Addr → Result Text (Args Addr)
  set_flag addr_flag value p =
      and_then (prefixed (codes "invalid --addr: ") (parse_addr value))
        (λ a. ok (record p { addr = a }))
  set_flag wal_flag value p = ok (record p { wal_path = some value })
  set_flag snapshot_flag value p = ok (record p { snapshot_path = some value })
  set_flag ttl_flag value p =
      and_then (prefixed (codes "invalid --session-ttl-ms: ") (parse_unsigned limit value))
        (λ n. ok (record p { session_ttl_ms = n }))
  set_flag capacity_flag value p =
      and_then (prefixed (codes "invalid --watch-channel-capacity: ") (parse_unsigned limit value))
        (λ n. ok (record p { watch_channel_capacity = n }))
  set_flag max_flag value p =
      and_then (prefixed (codes "invalid --max-watches: ") (parse_unsigned limit value))
        (λ n. ok (record p { max_watches = n }))

  -- the loop over the arguments
  unfoldable pub parse_loop : List Text → Args Addr → Result Text (Args Addr)
  parse_loop [] p = ok p
  parse_loop (arg ∷ []) p = elim (flag_of arg) [
    | none ↦ err (no_flag arg)
    | some flag ↦ err (flag_name flag ++ codes " requires a value")
  ]
  parse_loop (arg ∷ value ∷ rest) p = elim (flag_of arg) [
    | none ↦ err (no_flag arg)
    | some flag ↦ and_then (set_flag flag value p) (parse_loop rest)
  ]

  abbrev pub default_args : Addr → Args Addr
  default_args addr = record {
    addr = addr;
    wal_path = none;
    snapshot_path = none;
    session_ttl_ms = 10_000;
    watch_channel_capacity = 32;
    max_watches = 10_000;
  }

  unfoldable pub parse : List Text → Result Text (Args Addr)
  unfolding parse_loop check_args
  parse args =
      and_then (prefixed (codes "invalid default addr: ") (parse_addr (codes "127.0.0.1:50051")))
        (λ addr. and_then (parse_loop args (default_args addr)) check_args)

abbrev pub config_of : {Addr : Type 0} → Args Addr → ServerConfig
config_of args = record {
  session_ttl = args.session_ttl_ms;
  watch_channel_capacity = args.watch_channel_capacity;
  max_watches = args.max_watches;
}

-- the service that `main` serves at the address
pub data Started : Type 0 where
  in_memory : Service TreeStore → Started
  persistent : ZkResult (Service PersistentNode) → Started

module _ (codec : Codec) (describe : PersistenceError → Text) (files : Text → Option Bytes)
    (now : Instant) where
  abbrev read_at : Option Text → Option (Option Bytes)
  read_at none = none
  read_at (some path) = some (files path)

  unfoldable pub start : {Addr : Type 0} → Args Addr → Started
  start args = elim args.wal_path [
    | none ↦ in_memory (single_node_with_config (config_of args))
    | some path ↦ persistent (
        persistent_service codec describe (files path) (read_at args.snapshot_path) (config_of args)
          now)
  ]

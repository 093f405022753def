-- ===== src/Server/Args/Tests.antt =====
-- The command line at concrete arguments.
use zoocooker.Base.{◌≡◌, refl, some, [], ◌∷◌, List, Text, codes, nat_eq, text_eq}
use zoocooker.Base.Exec.{Result, ok, err}
use zoocooker.Server.Args.{
  Args, parse_digits, parse_unsigned, flag_of, set_flag, parse_loop, check_args, parse, limit,
}
use zoocooker.Server.Args.Accepted.{IsAccepted, parse-IsAccepted}

-- an address stays as it is written
abbrev keep : Text → Result Text Text
keep value = ok value

abbrev arguments : List Text
arguments =
    codes "--wal"
    ∷ codes "/w"
    ∷ codes "--session-ttl-ms"
    ∷ codes "+250"
    ∷ codes "--snapshot"
    ∷ codes "/s"
    ∷ []

abbrev parsed : Args Text
parsed = record {
  addr = codes "127.0.0.1:50051";
  wal_path = some (codes "/w");
  snapshot_path = some (codes "/s");
  session_ttl_ms = 250;
  watch_channel_capacity = 32;
  max_watches = 10_000;
}

parses : parse keep arguments ≡ ok parsed
unfolding parse parse_loop set_flag check_args flag_of parse_unsigned parse_digits nat_eq text_eq
parses = refl

value_missing : parse keep (codes "--wal" ∷ []) ≡ err (codes "--wal requires a value")
unfolding parse parse_loop flag_of nat_eq text_eq
value_missing = refl

snapshot_alone :
    parse keep (codes "--snapshot" ∷ codes "/s" ∷ []) ≡ err (codes "--snapshot requires --wal")
unfolding parse parse_loop set_flag check_args flag_of nat_eq text_eq
snapshot_alone = refl

parse-IsAccepted_example : IsAccepted parsed
parse-IsAccepted_example = parse-IsAccepted keep arguments parsed parses

too_large :
    parse_unsigned limit (codes "18446744073709551616")
    ≡ err (codes "number too large to fit in target type")
unfolding parse_unsigned parse_digits nat_eq
too_large = refl

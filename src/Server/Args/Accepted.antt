-- ===== src/Server/Args/Accepted.antt =====
-- What holds of arguments that the server accepts.
use zoocooker.Base.{
  ℕ, ◌+◌, ◌-◌, ◌*◌, ◌^◌, ◌<◌, ◌≡◌, refl, subst, true, Text, List, [], ◌∷◌, nat_eq, text_eq, codes,
  inl, inr, arith, Option-cases,
}
use zoocooker.Base.Exec.{Result, ok, err, panic}
use zoocooker.Server.Endpoint.{is_some}
use zoocooker.Server.Args.{
  Args, Flag, addr_flag, wal_flag, snapshot_flag, ttl_flag, capacity_flag, max_flag, flag_of, limit,
  prefixed, and_then, parse_digits, parse_unsigned, set_flag, parse_loop, default_args, check_args,
  parse,
}

-- The numbers fit their types; the TTL and the capacity are not zero; a snapshot has its log.
pub record IsAccepted {Addr : Type 0} (p : Args Addr) : Type 0 where
  pub ttl_pos : 0 < p.session_ttl_ms
  pub ttl_fits : p.session_ttl_ms < 2 ^ 64
  pub capacity_pos : 0 < p.watch_channel_capacity
  pub capacity_fits : p.watch_channel_capacity < 2 ^ 64
  pub max_fits : p.max_watches < 2 ^ 64
  pub logged : is_some p.snapshot_path ≡ true → is_some p.wal_path ≡ true

record Fits {Addr : Type 0} (p : Args Addr) : Type 0 where
  ttl : p.session_ttl_ms < 2 ^ 64
  capacity : p.watch_channel_capacity < 2 ^ 64
  watches : p.max_watches < 2 ^ 64

parse_digits-fits :
    (bound total : ℕ) (cs : Text) (n : ℕ)
    → total < bound
    → parse_digits bound total cs ≡ ok n
    → n < bound
unfolding parse_digits
parse_digits-fits bound total [] n b h = ground (arith, b, h)
parse_digits-fits bound total (c ∷ cs) n b h =
    ground (arith, h, parse_digits-fits bound (total * 10 + (c - 48)) cs n)

parse_unsigned-fits :
    (bound : ℕ) (cs : Text) (n : ℕ) → 0 < bound → parse_unsigned bound cs ≡ ok n → n < bound
unfolding parse_unsigned
parse_unsigned-fits bound [] n b h = ground (arith, h)
parse_unsigned-fits bound (c ∷ []) n b h = ground (arith, h, parse_digits-fits bound 0 (c ∷ []) n b)
parse_unsigned-fits bound (c ∷ d ∷ cs) n b h =
    ground
      (arith, h, parse_digits-fits bound 0 (d ∷ cs) n b, parse_digits-fits bound 0 (c ∷ d ∷ cs) n b)

-- what a chain that succeeds has gone through
and_then-inv :
    {A B : Type 0} (r : Result Text A) (f : A → Result Text B) (b : B)
    → and_then r f ≡ ok b
    → (a : A) × (r ≡ ok a) × (f a ≡ ok b)
and_then-inv (ok a) f b h = (a, refl, h)
and_then-inv (err e) f b h = absurd (ground (arith, h))
and_then-inv panic f b h = absurd (ground (arith, h))

prefixed-inv :
    {A : Type 0} (prefix : Text) (r : Result Text A) (a : A) → prefixed prefix r ≡ ok a → r ≡ ok a
prefixed-inv prefix (ok a) b h = h
prefixed-inv prefix (err e) b h = absurd (ground (arith, h))
prefixed-inv prefix panic b h = absurd (ground (arith, h))

-- a number that an arm has read
number-inv :
    {A : Type 0} (prefix value : Text) (f : ℕ → Result Text A) (a : A)
    → and_then (prefixed prefix (parse_unsigned limit value)) f ≡ ok a
    → (n : ℕ) × (n < 2 ^ 64) × (f n ≡ ok a)
number-inv prefix value f a h =
    let (n, e, r) = and_then-inv (prefixed prefix (parse_unsigned limit value)) f a h in
    (
      n,
      parse_unsigned-fits limit value n (omega arith)
          (prefixed-inv prefix (parse_unsigned limit value) n e),
      r,
    )

abbrev accepted : {Addr : Type 0} → Args Addr → Result Text (Args Addr)
accepted p = ok p

same_args : {Addr : Type 0} (p q : Args Addr) → accepted p ≡ accepted q → p ≡ q
same_args p q h = cc h

module _ {Addr : Type 0} (parse_addr : Text → Result Text Addr) where
  set_flag-Fits :
      (flag : Flag) (value : Text) (p q : Args Addr)
      → Fits p
      → set_flag parse_addr flag value p ≡ ok q
      → Fits q
  unfolding set_flag
  set_flag-Fits addr_flag value p q v h =
      let (a, e, r) = and_then-inv (prefixed (codes "invalid --addr: ") (parse_addr value)) _ q h in
      subst Fits (same_args _ q r)
        (record { ttl = v.ttl; capacity = v.capacity; watches = v.watches })
  set_flag-Fits wal_flag value p q v h =
      subst Fits (same_args _ q h)
        (record { ttl = v.ttl; capacity = v.capacity; watches = v.watches })
  set_flag-Fits snapshot_flag value p q v h =
      subst Fits (same_args _ q h)
        (record { ttl = v.ttl; capacity = v.capacity; watches = v.watches })
  set_flag-Fits ttl_flag value p q v h =
      let (n, b, r) = number-inv (codes "invalid --session-ttl-ms: ") value _ q h in
      subst Fits (same_args _ q r) (record { ttl = b; capacity = v.capacity; watches = v.watches })
  set_flag-Fits capacity_flag value p q v h =
      let (n, b, r) = number-inv (codes "invalid --watch-channel-capacity: ") value _ q h in
      subst Fits (same_args _ q r) (record { ttl = v.ttl; capacity = b; watches = v.watches })
  set_flag-Fits max_flag value p q v h =
      let (n, b, r) = number-inv (codes "invalid --max-watches: ") value _ q h in
      subst Fits (same_args _ q r) (record { ttl = v.ttl; capacity = v.capacity; watches = b })

  parse_loop-Fits :
      (args : List Text) (p q : Args Addr) → Fits p → parse_loop parse_addr args p ≡ ok q → Fits q
  unfolding parse_loop
  parse_loop-Fits [] p q v h = subst Fits (same_args _ q h) v
  parse_loop-Fits (arg ∷ []) p q v h = elim (Option-cases (flag_of arg)) [
    | inl e ↦ absurd (ground (arith, e, h))
    | inr (flag, e) ↦ absurd (ground (arith, e, h))
  ]
  parse_loop-Fits (arg ∷ value ∷ rest) p q v h = elim (Option-cases (flag_of arg)) [
    | inl e ↦ absurd (ground (arith, e, h))
    | inr (flag, e) ↦
        let both : and_then (set_flag parse_addr flag value p) (parse_loop parse_addr rest) ≡ ok q =
          ground (arith, e, h) in
        let (m, set, r) =
          and_then-inv (set_flag parse_addr flag value p) (parse_loop parse_addr rest) q both in
        parse_loop-Fits rest m q (set_flag-Fits flag value p m v set) r
  ]

  check_args-inv : (p q : Args Addr) → Fits p → check_args p ≡ ok q → IsAccepted q
  unfolding check_args
  check_args-inv p q v h =
      let same : p ≡ q = ground (arith, h) in
      subst IsAccepted same (record {
        ttl_pos = ground (arith, h);
        ttl_fits = v.ttl;
        capacity_pos = ground (arith, h);
        capacity_fits = v.capacity;
        max_fits = v.watches;
        logged = λ s. ground (arith, h, s);
      })

  -- The arguments that the command line yields, where it is not refused: the three numbers fit their
  -- 64 bits, the TTL and the capacity of a watch's channel are not zero, and a snapshot comes with a
  -- log.
  pub parse-IsAccepted :
      (args : List Text) (p : Args Addr) → parse parse_addr args ≡ ok p → IsAccepted p
  unfolding parse
  parse-IsAccepted args p h =
      let (addr, e, r) =
        and_then-inv
          (prefixed (codes "invalid default addr: ") (parse_addr (codes "127.0.0.1:50051"))) _ p
          h in
      let (q, loop, checked) =
        and_then-inv (parse_loop parse_addr args (default_args parse_addr addr)) check_args p r in
      let start : Fits (default_args parse_addr addr) = record {
        ttl = omega arith;
        capacity = omega arith;
        watches = omega arith;
      } in
      check_args-inv q p (parse_loop-Fits args (default_args parse_addr addr) q start loop) checked

-- ===== src/Server/Tasks/Interleaving.antt =====
-- The invariant of a server, under every interleaving of its tasks.
use zoocooker.Base.{
  Bool-cases, inl, inr, ℕ, zero, suc, ◌≡◌, sym, subst, Text, none, List, [], ◌∷◌, ◌++◌, arith,
  nat_eq,
}
use zoocooker.Server.Service.{channel_fits, Service, Texts, with_config}
use zoocooker.Base.Exec.{Result-split}
use zoocooker.Protocol.Types.{SessionId, Command, delete}
use zoocooker.Consensus.Interface.{Consensus, Keeps}
use zoocooker.Server.Metrics.{ServerConfig}
use zoocooker.Server.Service.Writes.{submitted}
use zoocooker.Server.Requests.Sound.{start-IsSound}
use zoocooker.Server.Requests.Sound.State.{
  IsSound, notify-IsSound, submitted-IsSound, metrics-IsSound,
}
use zoocooker.Server.Requests.Sound.Calls.{register_watch-IsSound, beaten-IsSound}
use zoocooker.Server.Requests.Sound.Cleanup.{forget-IsSound}
use zoocooker.Server.Tasks.{
  Task, finished, checks, submits, sends, counts, gets, looks, counts_read, registers, beats,
  collects, cleans, deletes, deleted_sends, advance, advance_at, Move, arrives, runs, run_moves,
  task_of,
}

module _ {S : Type 0} {impl : Consensus S} {P : S → Type 0} (keeps : Keeps impl P)
    (texts : Texts) where
  state-submits :
      (c : Command) (s : Service S)
      → (advance impl texts (submits c) s).1 ≡ submitted impl texts c s
  unfolding advance
  state-submits c s = elim (Result-split (impl.submit c s.consensus).0) [
    | inl (a, e) ↦ ground (arith, e)
    | inr (inl (x, e)) ↦ ground (arith, e)
    | inr (inr e) ↦ ground (arith, e)
  ]

  state-deletes :
      (path : Text) (paths : List Text) (id : SessionId) (ids : List SessionId) (n : ℕ)
      (s : Service S)
      → (advance impl texts (deletes (path ∷ paths) id ids n) s).1
        ≡ submitted impl texts (delete path none) s
  unfolding advance
  state-deletes path paths id ids n s =
      elim (Result-split (impl.submit (delete path none) s.consensus).0) [
        | inl (a, e) ↦ ground (arith, e)
        | inr (inl (x, e)) ↦ ground (arith, e)
        | inr (inr e) ↦ ground (arith, e)
      ]

  advance-IsSound : (t : Task) (s : Service S) → IsSound P s → IsSound P (advance impl texts t s).1
  advance-IsSound finished s v = unfold advance in v
  advance-IsSound (checks ephemeral id c) s v = unfold advance in v
  advance-IsSound (submits c) s v =
      subst (IsSound P) (sym (state-submits c s)) (submitted-IsSound keeps texts c s v)
  advance-IsSound (sends events) s v = unfold advance in notify-IsSound keeps texts events s v
  advance-IsSound counts s v = unfold advance in metrics-IsSound keeps texts s _ v
  advance-IsSound (gets path) s v = unfold advance in v
  advance-IsSound (looks path) s v = unfold advance in v
  advance-IsSound counts_read s v = unfold advance in metrics-IsSound keeps texts s _ v
  advance-IsSound (registers closed tx path kind) s v =
      unfold advance in
      elim (Bool-cases (channel_fits impl texts s.config.watch_channel_capacity)) [
        | inl fits ↦ rw fits (register_watch-IsSound keeps texts closed tx path kind s v)
        | inr bad ↦ rw bad v
      ]
  advance-IsSound (beats fresh id now) s v =
      unfold advance in beaten-IsSound keeps texts fresh id now s v
  advance-IsSound (collects now) s v = unfold advance in v
  advance-IsSound (cleans [] n) s v = unfold advance in metrics-IsSound keeps texts s _ v
  advance-IsSound (cleans (id ∷ ids) n) s v = unfold advance in v
  advance-IsSound (deletes [] id ids n) s v = unfold advance in forget-IsSound keeps texts id s v
  advance-IsSound (deletes (path ∷ paths) id ids n) s v =
      subst (IsSound P) (sym (state-deletes path paths id ids n s))
        (submitted-IsSound keeps texts (delete path none) s v)
  advance-IsSound (deleted_sends events paths id ids n) s v =
      unfold advance in notify-IsSound keeps texts events s v

  advance_at-IsSound :
      (i : ℕ) (ts : List Task) (s : Service S)
      → IsSound P s
      → IsSound P (advance_at impl texts i ts s).1
  unfolding advance_at
  advance_at-IsSound i [] s v = v
  advance_at-IsSound zero (t ∷ ts) s v = advance-IsSound t s v
  advance_at-IsSound (suc i) (t ∷ ts) s v = advance_at-IsSound i ts s v

  run_moves_keeps-IsSound :
      (moves : List Move) (ts : List Task) (s : Service S)
      → IsSound P s
      → IsSound P (run_moves impl texts moves ts s).1
  unfolding run_moves
  run_moves_keeps-IsSound [] ts s v = v
  run_moves_keeps-IsSound (arrives e ∷ moves) ts s v =
      run_moves_keeps-IsSound moves (ts ++ task_of impl texts e ∷ []) s v
  run_moves_keeps-IsSound (runs i ∷ moves) ts s v =
      run_moves_keeps-IsSound moves (advance_at impl texts i ts s).0
        (advance_at impl texts i ts s).1 (advance_at-IsSound i ts s v)

-- A server over a consensus all of whose submits reply and keep a property of its state, where the
-- property holds at the start, with any configuration. Requests and cleanups arrive at any time and
-- run at the same time, their steps in any order. Then the property holds, the count of watchers is
-- exact and within the configured limit, no session is listed twice, and the sessions have the
-- configured TTL.
pub run_moves-IsSound :
    {S : Type 0} (impl : Consensus S) (P : S → Type 0) (texts : Texts) (config : ServerConfig)
    (consensus : S) (moves : List Move)
    → Keeps impl P
    → P consensus
    → IsSound P (run_moves impl texts moves [] (with_config consensus config)).1
run_moves-IsSound impl P texts config consensus moves keeps h =
    run_moves_keeps-IsSound keeps texts moves [] (with_config consensus config)
      (start-IsSound P consensus config h)

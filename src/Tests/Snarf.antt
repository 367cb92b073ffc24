-- ===== src/Tests/Snarf.antt =====
-- A channel: rounds, reads and the log.
use coins.Prelude.{
  ℕ, zero, suc, ap, inl, ◌+◌, ◌≡◌, refl, none, some, false, Option, [], ◌∷◌, ◌++◌, Bytes, length,
  replicate, arith,
}
use coins.Libc.{codes}
use coins.Snarf.{
  State, Proto, failed, waiting, succeeded, opened, called_conn, called_auth, called_join, Channel,
  Replies,
}
use coins.Snarf.Log.{Timespec, logwss}
use coins.Snarf.Log.Chunks.{feed, concat, feed-concat}
use coins.Snarf.Prepare.{prepare_channel}
use coins.Snarf.Prepare.Safety.{
  live, IsSound, is_opening, is_closing, is_break, count, stops, IsSettled, prepare-IsSettled,
  prepare_conserves,
}
use coins.Snarf.Receive.{Hooks, grow, ws_cb}
use coins.Snarf.Receive.Bounds.{IsSafe, ws_cb-IsSafe}
use coins.Snarf.Events.{Param, new_channel, hbeat_cb, here, next, prepared, beat, broke_ws}
use coins.Snarf.Events.Reachable.{Reach-IsSound}

abbrev at_two : Timespec
at_two = record { tv_sec = 2; tv_nsec = 5 }

abbrev keep : Bytes → Bytes
keep line = line

abbrev hooks : Hooks
hooks = record {
  connd_coin = λ s. succeeded;
  authd_coin = λ s. failed;
  joind_coin = λ s. waiting;
  massage = keep;
  tinf_uncompress = λ n s. none;
}

abbrev channel : State → Option Proto → Channel
channel st ws = record {
  ws = ws;
  st = st;
  max_inact = 30;
  inflate = false;
  last_act = 0;
  size = 0;
  text = [];
}

abbrev full : Channel
full = record (channel State.joind (some Proto.raw)) { size = 4096 }

abbrev all_well : Replies
all_well = record {
  ws_open = some Proto.raw;
  conn_coin = succeeded;
  auth_coin = succeeded;
  join_coin = succeeded;
}

two_lines :
    logwss keep at_two (codes "{}\n{1}\n{2")
    ≡ (codes "2.000000005\t{}\n" ∷ codes "2.000000005\t{1}\n" ∷ [], codes "{2")
unfolding logwss
two_lines = refl

joined :
    (prepare_channel 1 all_well (channel State.unk none)).1
    ≡ opened Proto.raw ∷ called_conn ∷ called_auth ∷ called_join ∷ []
unfolding prepare_channel
joined = refl

feed-concat_example :
    feed keep at_two (codes "{") (codes "}\n{" ∷ codes "1}" ∷ codes "\n" ∷ [])
    ≡ logwss keep at_two (codes "{" ++ (codes "}\n{" ++ concat (codes "1}" ∷ codes "\n" ∷ [])))
feed-concat_example =
    feed-concat keep at_two (codes "{") (codes "}\n{") (codes "1}" ∷ codes "\n" ∷ [])

prepare-IsSettled_example :
    IsSettled
      (prepare_channel 1 all_well (channel State.unk none)).0.st
      (prepare_channel 1 all_well (channel State.unk none)).0.ws
    × (count is_break (prepare_channel 1 all_well (channel State.unk none)).1
        ≡ stops (prepare_channel 1 all_well (channel State.unk none)).0.st)
prepare-IsSettled_example = prepare-IsSettled 1 all_well (channel State.unk none) refl

prepare_conserves_example :
    live (some Proto.raw) + count is_opening (prepare_channel 99 all_well full).1
    ≡ count is_closing (prepare_channel 99 all_well full).1
      + live (prepare_channel 99 all_well full).0.ws
prepare_conserves_example = prepare_conserves 99 all_well full refl

rest_stays :
    (prepare_channel 1 all_well (channel State.connd (some Proto.rest))).0.ws ≡ some Proto.rest
unfolding prepare_channel
rest_stays = refl

ws_cb-IsSafe_example :
    IsSafe (ws_cb hooks at_two 0 [] (some (codes "{}\n{")) (channel State.join (some Proto.raw)))
ws_cb-IsSafe_example =
    ws_cb-IsSafe hooks at_two 0 [] (some (codes "{}\n{")) (channel State.join (some Proto.raw))
      (inl (refl, refl)) refl (omega arith)

length-replicate : (n : ℕ) → length {A = ℕ} (replicate n b'x') ≡ n
length-replicate zero = refl
length-replicate (suc n) = ap suc (length-replicate n)

abbrev authing : Channel
authing = record (channel State.auth (some Proto.raw)) { size = 4096 }

abbrev param : Param
param = record { max_inact = 30; inflate = false }

-- The channel once it has been opened, which is in the state CONN.
abbrev opened_channel : Channel
opened_channel = (prepare_channel 1 all_well (new_channel param)).0

-- Registered, opened, alive, and with a read that fails.
Reach-IsSound_example :
    IsSound
      (grow 4000 (hbeat_cb at_two false opened_channel)).st
      (grow 4000 (hbeat_cb at_two false opened_channel)).ws
    × IsSettled
        (prepare_channel 3 all_well (grow 4000 (hbeat_cb at_two false opened_channel))).0.st
        (prepare_channel 3 all_well (grow 4000 (hbeat_cb at_two false opened_channel))).0.ws
    × (count is_break
          (prepare_channel 3 all_well (grow 4000 (hbeat_cb at_two false opened_channel))).1
        ≡ stops
            (prepare_channel 3 all_well (grow 4000 (hbeat_cb at_two false opened_channel))).0.st)
unfolding ws_cb hbeat_cb prepare_channel new_channel
Reach-IsSound_example = Reach-IsSound param 3 all_well (
    next (next (next here (prepared 1 all_well)) (beat at_two false))
      (broke_ws hooks at_two 0 [] none refl refl))

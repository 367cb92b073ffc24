-- ===== src/Tests/Okfix.antt =====
-- A logon, and a loop that ends.
use coins.Prelude.{
  ℕ, zero, suc, ◌-◌, ◌≤◌, ◌≡◌, ◌+◌, Option, List, ap, refl, some, none, [], ◌∷◌, ◌++◌, Bytes,
  length, replicate, arith,
}
use coins.Libc.{codes}
use coins.Fix.{Parsed, fix_parse}
use coins.Snarf.Log.{Timespec, hrclock_print}
use coins.Okfix.{
  unk, sub, off, Client, Env, Event, readable, interrupted, buf_print, fault, mreq_head, treq_head,
  on_message, beef_cb, connections,
}
use coins.Okfix.Requests.{IsReady, render_all, requests_of, logon_renders}
use coins.Okfix.Sessions.{connections-le-one, connections-again, beef_cb_overrun}

abbrev env : Env
env = record {
  api_key = codes "key";
  api_sec = codes "secret";
  strftime = λ now. codes "20260101-00:00:00.000";
}

abbrev buffer : Bytes → Bytes
buffer head = head ++ replicate (256 - length head) 0

abbrev client : Client
client = record {
  st = unk;
  susp = 0;
  instr = codes "BTC/USD" ∷ codes "ETH/USD" ∷ [];
  fix = record { seq = 1; scomp_id = []; tcomp_id = []; clck = []; metr = 0 };
  mreq = buffer mreq_head;
  treq = buffer treq_head;
}

logon_renders_example :
    (mreq : Bytes) × (treq : Bytes) × (on_message env (λ n. n) b'A' [] client
      ≡ some (
        record client {
          st = sub;
          fix = (render_all env.strftime (λ n. n) client.fix (requests_of client.instr)).0;
          mreq = mreq;
          treq = treq;
        },
        (render_all env.strftime (λ n. n) client.fix (requests_of client.instr)).1,
      ))
    × IsReady mreq_head mreq
    × IsReady treq_head treq
logon_renders_example =
    logon_renders env (λ n. n) [] client (refl, (replicate (256 - length mreq_head) 0, refl))
      (refl, (replicate (256 - length treq_head) 0, refl)) (omega arith)

abbrev noon : Timespec
noon = record { tv_sec = 2; tv_nsec = 0 }

-- The connection ends, an interrupt comes in the same iteration, and a second connection is offered.
abbrev rounds : List (Option (ℕ × List (List Event)))
rounds =
    some (1, [] ∷ (readable (λ n. n) (λ n. noon) none ∷ interrupted 2 ∷ []) ∷ [])
    ∷ some (3, [])
    ∷ []

connections-le-one_example : connections env rounds client ≤ 1
connections-le-one_example = connections-le-one env rounds client (ground arith)

abbrev logout : Bytes
logout = codes "8=FIX.4.4" ++ 1 ∷ (codes "9=005" ++ 1 ∷ (codes "35=5" ++ 1 ∷ []))

abbrev logged : Bytes
logged = codes "2.000000000" ++ b'\t' ∷ (codes "8=FIX.4.4|9=005|35=5|" ++ b'\n' ∷ [])

is_logged : buf_print noon logout ≡ some logged
unfolding buf_print hrclock_print
is_logged = refl

abbrev parsed : Parsed
parsed = record { typ = b'5'; off = 20; len = 1 }

is_parsed : (fix_parse logout []).1 ≡ some parsed
unfolding fix_parse
is_parsed = refl

connections-again_example :
    (c' : Client) × (c'.st ≡ off)
    × (connections env
          (some (1, (interrupted 2 ∷ readable (λ n. n) (λ n. noon) (some (logout, [])) ∷ []) ∷ [])
            ∷ rounds)
          client
        ≡ 1 + connections env rounds c')
connections-again_example =
    connections-again env 1 2 (λ n. n) (λ n. noon) logout [] logged parsed [] rounds client
      is_parsed refl is_logged

length-replicate : (n : ℕ) → length {A = ℕ} (replicate n b'x') ≡ n
length-replicate zero = refl
length-replicate (suc n) = ap suc (length-replicate n)

beef_cb_overrun_example :
    beef_cb env (λ n. n) (λ n. noon) (some (replicate 16384 b'x', [])) client ≡ fault
beef_cb_overrun_example =
    beef_cb_overrun env (λ n. n) (λ n. noon) (replicate 16384 b'x') [] client
      (omega (arith, length-replicate 16384))

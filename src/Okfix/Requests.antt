-- ===== src/Okfix/Requests.antt =====
-- What a logon brings about: a request for the quotes and one for the trades of each instrument.
use coins.Prelude.{
  ℕ, ◌+◌, ◌≤◌, ◌≡◌, refl, sym, ap, ap₂, ◌∙◌, true, some, List, [], ◌∷◌, ◌++◌, Bytes, length,
  length-append, take, drop, drop-length_add_append, take-length_add_append, take-length_append,
  length-drop, leb, All, arith,
}
use coins.Fix.{Message, Fix, soh, fix_render}
use coins.Okfix.{
  State, on, sub, Client, Env, mreq_head, treq_head, write_at, request, fix_subsc, then_on,
  and_sent, subscribe_all, on_message,
}

-- A buffer of 256 octets that starts with its head, whatever stands behind it.
abbrev pub IsReady : Bytes → Bytes → Type 0
IsReady head buf = (length buf ≡ 256) × ((rest : Bytes) × (buf ≡ head ++ rest))

abbrev pub request_of : Bytes → Bytes → Message
request_of head sym = record { typ = b'V'; msg = head ++ (sym ++ soh ∷ []) }

leb_of_le : {a b : ℕ} → a ≤ b → leb a b ≡ true
leb_of_le h = ground arith

write_at-head :
    (head rest s : Bytes)
    → write_at (length head) s (head ++ rest) ≡ head ++ (s ++ drop (length s) rest)
write_at-head head rest s =
    ap₂ (λ (a b : Bytes). a ++ (s ++ b)) (take-length_append head rest)
      (drop-length_add_append head rest (length s))

-- The message has the symbol alone, with nothing of those requested before, and the buffer is ready
-- for the next.
request-IsReady :
    (head sym' buf : Bytes)
    → IsReady head buf
    → length head + length sym' + 1 ≤ 256
    → (buf' : Bytes) × (request head sym' buf ≡ some (buf', request_of head sym'))
      × IsReady head buf'
unfolding request
request-IsReady head sym' buf (len, (rest, e)) fits =
    let s = sym' ++ soh ∷ [] in
    let more = drop (length s) rest in
    let buf' = head ++ (s ++ more) in
    let size : length s ≡ length sym' + 1 = length-append sym' (soh ∷ []) in
    let count : length head + length sym' + 1 ≡ length head + length s = omega arith in
    let written : write_at (length head) s buf ≡ buf' =
      ap (write_at (length head) s) e ∙ write_at-head head rest s in
    let text : take (length head + length sym' + 1) buf' ≡ head ++ s =
      ap (λ (n : ℕ). take n buf') count
      ∙ take-length_add_append head (s ++ more) (length s)
      ∙ ap (λ (t : Bytes). head ++ t) (take-length_append s more) in
    (
      buf',
      rw (leb_of_le fits) (
          ap
            (λ (b : Bytes).
              some (b, record { typ = b'V'; msg = take (length head + length sym' + 1) b }))
            written
          ∙ ap (λ (t : Bytes). some (buf', record { typ = b'V'; msg = t })) text),
      (
        omega (
          arith,
          length-append head (s ++ more),
          length-append s more,
          length-drop {0} (length s) rest,
          length-append head rest,
          ap length e,
          len,
        ),
        (s ++ more, refl),
      ),
    )

-- Messages rendered one after the other, each at its own time.
abbrev pub render_all : (ℕ → Bytes) → (ℕ → ℕ) → Fix → List Message → Fix × List Bytes
render_all strftime clock f [] = (f, [])
render_all strftime clock f (m ∷ ms) =
    let r = fix_render strftime (clock 0) f m in
    let rs = render_all strftime (λ n. clock (n + 1)) r.0 ms in (rs.0, r.1 ∷ rs.1)

-- The requests for some instruments.
abbrev pub requests_of : List Bytes → List Message
requests_of [] = []
requests_of (s ∷ ss) = request_of mreq_head s ∷ request_of treq_head s ∷ requests_of ss

abbrev pub subscribed : State → List Bytes → State
subscribed st [] = st
subscribed st (s ∷ ss) = sub

-- A symbol that fits behind the longer of the heads.
abbrev pub IsSymbol : Bytes → Type 0
IsSymbol s = length mreq_head + length s + 1 ≤ 256

subscribe_one :
    (e : Env) (clock : ℕ → ℕ) (s : Bytes) (c : Client)
    → IsReady mreq_head c.mreq
    → IsReady treq_head c.treq
    → IsSymbol s
    → (mreq : Bytes) × (treq : Bytes) × (fix_subsc e clock s c
        ≡ some (
          record c {
            fix =
                (fix_render e.strftime
                  (clock 1)
                  (fix_render e.strftime (clock 0) c.fix (request_of mreq_head s)).0
                  (request_of treq_head s)).0;
            mreq = mreq;
            treq = treq;
          },
          (fix_render e.strftime (clock 0) c.fix (request_of mreq_head s)).1
              ∷ (fix_render e.strftime
                  (clock 1)
                  (fix_render e.strftime (clock 0) c.fix (request_of mreq_head s)).0
                  (request_of treq_head s)).1
              ∷ [],
        ))
      × IsReady mreq_head mreq
      × IsReady treq_head treq
unfolding fix_subsc
subscribe_one e clock s c mr tr' fits =
    let (mreq, em, rm) = request-IsReady mreq_head s c.mreq mr fits in
    let (treq, et, rt) = request-IsReady treq_head s c.treq tr' (omega arith) in
    (mreq, treq, rw (em, et), rm, rt)

subscribed_sub : (ss : List Bytes) → subscribed sub ss ≡ sub
subscribed_sub [] = refl
subscribed_sub (s ∷ ss) = refl

-- The loop sends the requests in order.
subscribe_all-renders :
    (e : Env) (clock : ℕ → ℕ) (ss : List Bytes) (c : Client)
    → IsReady mreq_head c.mreq
    → IsReady treq_head c.treq
    → All IsSymbol ss
    → (mreq : Bytes) × (treq : Bytes) × (subscribe_all e clock ss c
        ≡ some (
          record c {
            st = subscribed c.st ss;
            fix = (render_all e.strftime clock c.fix (requests_of ss)).0;
            mreq = mreq;
            treq = treq;
          },
          (render_all e.strftime clock c.fix (requests_of ss)).1,
        ))
      × IsReady mreq_head mreq
      × IsReady treq_head treq
unfolding subscribe_all
subscribe_all-renders e clock [] c mr tr' fits = (c.mreq, c.treq, refl, mr, tr')
subscribe_all-renders e clock (s ∷ ss) c mr tr' fits =
    let (mreq, treq, one, rm, rt) = subscribe_one e clock s c mr tr' fits.0 in
    let f₀ = fix_render e.strftime (clock 0) c.fix (request_of mreq_head s) in
    let f₁ = fix_render e.strftime (clock 1) f₀.0 (request_of treq_head s) in
    let c' = record c { st = sub; fix = f₁.0; mreq = mreq; treq = treq } in
    let (mreq', treq', more, rm', rt') =
      subscribe_all-renders e (λ n. clock (n + 1 + 1)) ss c' rm rt fits.1 in
    (
      mreq',
      treq',
      ap (then_on (λ (d : Client). subscribe_all e (λ n. clock (n + 1 + 1)) ss d)) one
          ∙ ap (and_sent (f₀.1 ∷ f₁.1 ∷ [])) more
          ∙ rw (subscribed_sub ss),
      rm',
      rt',
    )

-- At a logon the client asks for the quotes and the trades of each of its instruments, in order
-- and each with the next sequence number; no request has anything left over from an earlier one.
pub logon_renders :
    (e : Env) (clock : ℕ → ℕ) (text : Bytes) (c : Client)
    → IsReady mreq_head c.mreq
    → IsReady treq_head c.treq
    → All IsSymbol c.instr
    → (mreq : Bytes) × (treq : Bytes) × (on_message e clock b'A' text c
        ≡ some (
          record c {
            st = subscribed on c.instr;
            fix = (render_all e.strftime clock c.fix (requests_of c.instr)).0;
            mreq = mreq;
            treq = treq;
          },
          (render_all e.strftime clock c.fix (requests_of c.instr)).1,
        ))
      × IsReady mreq_head mreq
      × IsReady treq_head treq
unfolding on_message
logon_renders e clock text c mr tr' fits =
    subscribe_all-renders e clock c.instr (record c { st = on }) mr tr' fits
